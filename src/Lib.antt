-- ===== src/Lib.antt =====
-- The operator that runs Kubernetes control planes as workloads of a host cluster. A ManagedControlPlane
-- names a version and a network; the operator builds its certificates, etcd, API server, controller
-- manager and scheduler, publishes the address and the administrator's kubeconfig, and then engages the
-- new cluster with a multi-cluster manager.
--
-- The parts and the files that model them:
-- - Api, Api/Messages: the resource and the constants of pkg/apis/controlplane.patrostkowski.dev/v1alpha1.
-- - Cluster and its children: pkg/cluster. All names, addresses and mount paths are functions of one
--   ManagedControlPlane; every other part takes its names from here.
-- - Net, Net/Decimal: what is used of Go's net and strconv, with addresses as lists of bytes.
-- - Utils/Text, Utils/Kubeconfig: pkg/utils/utils.go and kubernetes.go.
-- - Builders: pkg/resources/builders, the templates that objects are built with, a function for each
--   of their methods.
-- - Pki: pkg/resources/pki, the issuers and certificates of one control plane (IssuerResources, Roots,
--   Serving, EtcdCertificates, Clients, Resources), the names that they cover (Sans) and the addition on
--   addresses (Addresses); Trust, Fields, Distinctness, Coverage, Carry and FirstService hold proofs.
-- - Workloads: pkg/resources/etcd, apiserver, controllermanager and scheduler, the objects that run a
--   control plane, over Builders/Pod and the templates beside it. Backing says what it means that a file
--   which a container is told to open is there; the modules on files, egress and kubeconfigs hold proofs.
--   Where the code dereferences a missing networking section or panics, a builder gives none. In
--   Controller/Reconcile a run has no reply then; Controller/Addons and Multicluster/Provider turn a
--   panic into the error that controller-runtime makes of it.
-- - AddonResources: pkg/resources/addons, the objects for a managed cluster. Objects has their kinds and
--   the shared constants; Konnectivity, KubeProxy, CoreDns, Flannel and Csi are the add-ons, which Addons
--   puts in order; Join and its children let nodes join. Backing says what it means that an object has what
--   it refers to; Backing/Longer, Addons/Parts, Addons/Supported, AgentFiles, Join/References and Join/Dns
--   hold proofs.
-- - Controller: pkg/controller. Kube holds the API server's client, over an abstract world, and the
--   helpers of controller-runtime, as records of operations; IsMachinery and IsRetrying state what their
--   documentation promises, and are assumed only where a theorem names them. Apply is the server-side
--   apply and Status the status writes of helpers.go; Endpoint is apiserver.go, AdminConfig is config.go,
--   Components the seven components, and Reconcile the loop of managedcontrolplane_controller.go. An
--   operation takes the world and returns what it answers with the world after it.
-- - Controller/Addons: addon.go and addon_controller.go, the reconciler of an engaged cluster, with two
--   clients over one world: the host cluster's and the managed cluster's. Token is
--   pkg/resources/addons/token.go, Watches what SetupManagedAddonController enqueues; Idempotence and
--   Completion hold proofs.
-- - Multicluster/Provider: pkg/controller/multicluster/provider.go. The state is the provider's map of
--   clusters, its indexers, and the contexts that were made and cancelled; Host is what it calls. Registry
--   reduces a reconcile to a sequence of four kinds of step on that state, and the invariants of Contexts,
--   Frame and Coherence are proved by induction on such sequences.
-- - Multicluster/Interleaving: the same file where IndexField is called while a cluster is created: a
--   state with the calls under way, and a relation with a step for what happens between two operations on
--   the lock. Served, Served/Calls and Calm hold the invariant, Missed the run that breaks it without its
--   condition, and Multicluster/Sequential with its children ties the relation to the functions of
--   Provider, over the histories of calls of Provider/History.
-- - Tesseractl: cmd/tesseractl/cli and pkg/client. Host holds the clients and libraries that are called;
--   Flags selects a cluster, Tokens and Discovery read a managed cluster, Output is the table, Commands the
--   commands. Tokens/Latest and Commands/Joining hold proofs.
-- - Tests: every theorem at a concrete input, over a small world that keeps the assumed promises.
--
-- All loops are structural recursion over lists, so no fuel is needed. Machine integers occur in
-- IPAtOffset, whose sum is taken modulo 2 ^ 32, and in the bytes of an address.
--
-- Not modelled: generated code, the wiring of main and of the controllers, and cobra's help texts. Log
-- lines and events have no effect here. The retries of RetryOnConflict are a parameter. Errors keep the
-- text of the wrapping but not the formatted names. In Multicluster/Provider operations run one at a time,
-- as its reconciles do; calls that overlap are the subject of Multicluster/Interleaving.
pub mod Base
pub mod Net
pub mod Utils
pub mod Api
pub mod Cluster
pub mod Builders
pub mod Pki
pub mod Controller
pub mod Multicluster
pub mod Workloads
pub mod AddonResources
pub mod Tesseractl
pub mod Tests
