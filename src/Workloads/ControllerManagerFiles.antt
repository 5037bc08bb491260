-- ===== src/Workloads/ControllerManagerFiles.antt =====
-- The files of the controller manager, against the certificates of the control plane.
use controlplane_operator.Base.{String, ◌≡◌, refl, subst, some, List, [], ◌∷◌}
use controlplane_operator.Api.{NetworkingSpec}
use controlplane_operator.Net.{Net}
use controlplane_operator.Cluster
use controlplane_operator.Cluster.{ClusterContext, cert_path, key_path}
use controlplane_operator.Cluster.ControllerManager
use controlplane_operator.Builders.Deployment.{Deployment}
use controlplane_operator.Pki.CommonNames.{Durations}
use controlplane_operator.Pki.Resources.{certificate_resources}
use controlplane_operator.Workloads.Backing.{Runs, no_flags, ◌▸◌, nth-Mem, secret-Opens}
use controlplane_operator.Workloads.ControllerManagerObjects.{
  arguments, build_deployment, container, deployment_with, mounts,
}
use controlplane_operator.Workloads.KubeconfigsBuilt.{controller_manager_built}

abbrev pub controller_manager_flags : List String
controller_manager_flags =
    "--service-account-private-key-file=" ∷ "--cluster-signing-cert-file="
    ∷ "--cluster-signing-key-file=" ∷ "--client-ca-file=" ∷ "--root-ca-file=" ∷ []

controller_manager-Runs :
    (net : Net) (cc : ClusterContext) (d : Durations) (networking : NetworkingSpec)
    → Runs
        (certificate_resources net cc d)
        (deployment_with cc networking).template
        "kube-controller-manager"
        controller_manager_flags
unfolding certificate_resources deployment_with container arguments mounts cert_path key_path
    Cluster.secret_mount Cluster.secret_volume ControllerManager.cluster_ca_secret
    ControllerManager.sa_signer_secret
controller_manager-Runs net cc d networking = record {
  container = _;
  present = nth-Mem 0 _ refl;
  named = refl;
  opens =
      secret-Opens cc "--service-account-private-key-file=" (ControllerManager.sa_signer_secret cc)
        "tls.key" (nth-Mem 8 _ refl) (nth-Mem 3 _ refl) (nth-Mem 3 _ refl) (nth-Mem 4 _ refl)
        (nth-Mem 2 _ refl)
      ▸ secret-Opens cc "--cluster-signing-cert-file=" (ControllerManager.cluster_ca_secret cc)
          "tls.crt" (nth-Mem 9 _ refl) (nth-Mem 1 _ refl) (nth-Mem 1 _ refl) (nth-Mem 0 _ refl)
          (nth-Mem 1 _ refl)
      ▸ secret-Opens cc "--cluster-signing-key-file=" (ControllerManager.cluster_ca_secret cc)
          "tls.key" (nth-Mem 10 _ refl) (nth-Mem 1 _ refl) (nth-Mem 1 _ refl) (nth-Mem 0 _ refl)
          (nth-Mem 2 _ refl)
      ▸ secret-Opens cc "--client-ca-file=" (ControllerManager.cluster_ca_secret cc) "tls.crt"
          (nth-Mem 12 _ refl) (nth-Mem 1 _ refl) (nth-Mem 1 _ refl) (nth-Mem 0 _ refl)
          (nth-Mem 1 _ refl)
      ▸ secret-Opens cc "--root-ca-file=" (ControllerManager.cluster_ca_secret cc) "tls.crt"
          (nth-Mem 13 _ refl) (nth-Mem 1 _ refl) (nth-Mem 1 _ refl) (nth-Mem 0 _ refl)
          (nth-Mem 1 _ refl)
      ▸ no_flags;
}

-- A Deployment of the controller manager that is built has its container, and each certificate file
-- that the arguments name is a file of a secret that one of the control plane's certificates writes,
-- in a volume that the container mounts.
pub controller_manager_deployment-Runs :
    (net : Net) (cc : ClusterContext) (d : Durations) (dep : Deployment)
    → build_deployment cc ≡ some dep
    → Runs
        (certificate_resources net cc d)
        dep.template
        "kube-controller-manager"
        controller_manager_flags
controller_manager_deployment-Runs net cc d dep e =
    let (networking, same) = controller_manager_built cc dep e in
    subst
      (λ (x : Deployment).
        Runs (certificate_resources net cc d) x.template "kube-controller-manager"
          controller_manager_flags)
      same (controller_manager-Runs net cc d networking)
