-- ===== src/AddonResources/AgentFiles.antt =====
-- The konnectivity agent finds its secrets and its server.
use Prim.Native.String.{◌++◌}
use mathlib.Core.List.{Memᴰ}
use mathlib.Core.List.Memᴰ.{head, tail}
use controlplane_operator.Base.{
  String, Bool, ◌≡◌, ◌≢◌, refl, Option, none, List, [], ◌∷◌, Error, Result-cases, ok, inl, inr, ap,
}
use controlplane_operator.Api.{ManagedControlPlane}
use controlplane_operator.Utils.Text.{port_string}
use controlplane_operator.Cluster.{ClusterContext, VolumeMount, join}
use controlplane_operator.Cluster.Konnectivity as Names
use controlplane_operator.Workloads.Backing.{nth-Mem}
use controlplane_operator.Workloads.ApiServer.{build_service}
use controlplane_operator.Workloads.ApiServerDeployment.{konnectivity_container}
use controlplane_operator.Builders.Meta.{with_name, with_namespace, with_labels, with_annotations}
use controlplane_operator.Builders.Pod.{Container, Volume, PodTemplate, projected}
use controlplane_operator.Builders.Service.{ServicePort}
use controlplane_operator.Controller.Kube.{Secret, Machinery, Client, Renderer}
use controlplane_operator.Controller.Addons.{AddonHost, copied, ensure_konnectivity_tls_data}
use controlplane_operator.AddonResources.Konnectivity.{
  arguments, container, volume, volume_mount, build_konnectivity_agent_daemon_set,
}

-- The container is told to open a file of a secret that is projected into a volume which it mounts.
pub record OpensProjected (pod : PodTemplate) (c : Container) (flag secret : String) : Type 0 where
  pub file : String
  pub mount : VolumeMount
  pub volume : Volume
  pub sources : List (String × List (String × String))
  pub items : List (String × String)
  pub key : String
  pub told : Memᴰ (flag ++ join mount.mount_path file) c.args
  pub mounted : Memᴰ mount c.volume_mounts
  pub provided : Memᴰ volume pod.volumes
  pub by_name : mount.name ≡ volume.name
  pub source : volume.source ≡ projected sources
  pub of_secret : Memᴰ (secret, items) sources
  pub at : Memᴰ (key, file) items

-- The server that the agent dials: the API server's address and the port that its Service passes on to
-- the konnectivity server.
pub record Dials (mcp : ManagedControlPlane) (c : Container) : Type 0 where
  pub port : ServicePort
  pub host : Memᴰ ("--proxy-server-host=" ++ mcp.status.address) c.args
  pub dialled : Memᴰ ("--proxy-server-port=" ++ port_string port.port) c.args
  pub passed_on : Memᴰ port (build_service mcp).ports
  pub awaited :
      Memᴰ ("--agent-port=" ++ port_string port.target_port) (konnectivity_container mcp).args

-- The agent of a control plane, over the two secrets that are copied for it.
pub record Tunnelled (mcp : ManagedControlPlane) (tls ca : Secret) : Type 0 where
  pub c : Container
  pub present : Memᴰ c (build_konnectivity_agent_daemon_set mcp).template.containers
  pub near :
      (tls.namespace ≡ (build_konnectivity_agent_daemon_set mcp).meta.namespace)
      × (ca.namespace ≡ (build_konnectivity_agent_daemon_set mcp).meta.namespace)
  pub ca_file :
      OpensProjected (build_konnectivity_agent_daemon_set mcp).template c "--ca-cert=" ca.name
  pub cert_file :
      OpensProjected (build_konnectivity_agent_daemon_set mcp).template c "--agent-cert=" tls.name
  pub key_file :
      OpensProjected (build_konnectivity_agent_daemon_set mcp).template c "--agent-key=" tls.name
  pub dials : Dials mcp c

abbrev mounted_container : ClusterContext → Container
mounted_container mcp = record (container mcp) { volume_mounts = volume_mount ∷ [] }

abbrev tls_items : List (String × String)
tls_items = ("tls.crt", "tls.crt") ∷ ("tls.key", "tls.key") ∷ []

abbrev ca_items : List (String × String)
ca_items = ("ca.crt", "ca.crt") ∷ []

abbrev sources_of : ManagedControlPlane → List (String × List (String × String))
sources_of mcp = (Names.agent_tls_secret mcp, tls_items) ∷ (Names.ca_secret mcp, ca_items) ∷ []

-- The one volume has the files.
file-OpensProjected :
    (mcp : ManagedControlPlane) (flag secret file : String) (items : List (String × String))
    → Memᴰ (flag ++ join volume_mount.mount_path file) (arguments mcp)
    → Memᴰ (secret, items) (sources_of mcp)
    → Memᴰ (file, file) items
    → OpensProjected
        (build_konnectivity_agent_daemon_set mcp).template
        (mounted_container mcp)
        flag
        secret
unfolding build_konnectivity_agent_daemon_set container volume
file-OpensProjected mcp flag secret file items told of_secret at = record {
  file = file;
  mount = volume_mount;
  volume = volume mcp;
  sources = sources_of mcp;
  items = items;
  key = file;
  told = told;
  mounted = head refl;
  provided = head refl;
  by_name = refl;
  source = refl;
  of_secret = of_secret;
  at = at;
}

agent-Dials : (mcp : ManagedControlPlane) → Dials mcp (mounted_container mcp)
unfolding container arguments build_service konnectivity_container
agent-Dials mcp = record {
  port = record { name = "grpc"; port = 8132; target_port = 8132; protocol = "TCP" };
  host = nth-Mem 0 (arguments mcp) refl;
  dialled = nth-Mem 1 (arguments mcp) refl;
  passed_on = nth-Mem 1 (build_service mcp).ports refl;
  awaited = nth-Mem 6 (konnectivity_container mcp).args refl;
}

copies-Tunnelled :
    (mcp : ManagedControlPlane) (tls ca : Secret)
    → tls.name ≡ Names.agent_tls_secret mcp
    → ca.name ≡ Names.ca_secret mcp
    → tls.namespace ≡ "kube-system"
    → ca.namespace ≡ "kube-system"
    → Tunnelled mcp tls ca
unfolding build_konnectivity_agent_daemon_set container arguments with_name with_namespace
    with_labels with_annotations
copies-Tunnelled mcp tls ca e f g h =
    let of_tls : Memᴰ (tls.name, tls_items) (sources_of mcp) =
      head {xs = (Names.ca_secret mcp, ca_items) ∷ []} (ap (λ n. (n, tls_items)) e) in
    let of_ca : Memᴰ (ca.name, ca_items) (sources_of mcp) =
      tail (head {xs = []} (ap (λ n. (n, ca_items)) f)) in
    record {
      c = mounted_container mcp;
      present = head refl;
      near = (g, h);
      ca_file =
          file-OpensProjected mcp "--ca-cert=" ca.name "ca.crt" ca_items
            (nth-Mem 2 (arguments mcp) refl) of_ca (nth-Mem 0 ca_items refl);
      cert_file =
          file-OpensProjected mcp "--agent-cert=" tls.name "tls.crt" tls_items
            (nth-Mem 3 (arguments mcp) refl) of_tls (nth-Mem 0 tls_items refl);
      key_file =
          file-OpensProjected mcp "--agent-key=" tls.name "tls.key" tls_items
            (nth-Mem 4 (arguments mcp) refl) of_tls (nth-Mem 1 tls_items refl);
      dials = agent-Dials mcp;
    }

-- The copies of two secrets of the host cluster, and nothing else.
pub record Copied {Obj W : Type 0} (c : Client Obj W) (render : Renderer Obj)
    (mcp : ManagedControlPlane) (w : W) (secrets : List Obj) : Type 0 where
  pub tls_source : Secret
  pub ca_source : Secret
  pub tls : Secret
  pub ca : Secret
  pub tls_read :
      c.get_secret (record { namespace = mcp.meta.namespace; name = Names.agent_tls_secret mcp }) w
      ≡ ok tls_source
  pub ca_read :
      c.get_secret (record { namespace = mcp.meta.namespace; name = Names.ca_secret mcp }) w
      ≡ ok ca_source
  pub whole : secrets ≡ render.secret tls ∷ render.secret ca ∷ []
  pub kept : (tls.contents ≡ tls_source.contents) × (ca.contents ≡ ca_source.contents)
  pub tunnelled : Tunnelled mcp tls ca

module _ {Obj W : Type 0} (m : Machinery Obj) (c : Client Obj W) (render : Renderer Obj)
    (a : AddonHost Obj W) (has_scheme : Bool) (mcp : ManagedControlPlane) (w : W) where
  -- If the konnectivity secrets of a control plane are prepared without an error and there are some,
  -- they are copies of two secrets of the host cluster with their contents. The agent of the add-ons
  -- is in the namespace of the copies; its container is told to open files of just these two, which
  -- are projected into a volume that it mounts; and it dials the control plane's address at a port of
  -- the API server's Service, which passes it on to the port that the konnectivity server awaits
  -- agents on.
  pub ensured-Copied :
      (secrets : List Obj)
      → ensure_konnectivity_tls_data m c render a has_scheme mcp w ≡ (secrets, none)
      → secrets ≢ []
      → Copied c render mcp w secrets
  unfolding ensure_konnectivity_tls_data copied
  ensured-Copied secrets h some_secrets =
      elim (Result-cases (
        c.get_secret (record { namespace = mcp.meta.namespace; name = Names.agent_tls_secret mcp })
          w)) [
            | inr (e, p) ↦
                let stop : ◌≡◌ {A = List Obj × Option Error} ([], m.ignore_not_found e)
                    (secrets, none) =
                  rw (p, ensure_konnectivity_tls_data) at h in
                absurd (some_secrets cc)
            | inl (tls_source, p) ↦
                elim (Result-cases (
                  c.get_secret
                    (record { namespace = mcp.meta.namespace; name = Names.ca_secret mcp }) w)) [
                      | inr (e, q) ↦
                          let stop : ◌≡◌ {A = List Obj × Option Error} ([], m.ignore_not_found e)
                              (secrets, none) =
                            rw (q, ensure_konnectivity_tls_data) at
                              (rw (p, ensure_konnectivity_tls_data) at h) in
                          absurd (some_secrets cc)
                      | inl (ca_source, q) ↦
                          let tls : Secret =
                            copied m c render a has_scheme (Names.agent_tls_secret mcp)
                              tls_source in
                          let ca : Secret =
                            copied m c render a has_scheme (Names.ca_secret mcp) ca_source in
                          let both : ◌≡◌ {A = List Obj × Option Error}
                              (render.secret tls ∷ render.secret ca ∷ [], none) (secrets, none) =
                            rw (q, ensure_konnectivity_tls_data) at
                              (rw (p, ensure_konnectivity_tls_data) at h) in
                          record {
                            tls_source = tls_source;
                            ca_source = ca_source;
                            tls = tls;
                            ca = ca;
                            tls_read = p;
                            ca_read = q;
                            whole = cc;
                            kept = (refl, refl);
                            tunnelled = copies-Tunnelled mcp tls ca refl refl refl refl;
                          }
                    ]
          ]
