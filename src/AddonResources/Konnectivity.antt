-- ===== src/AddonResources/Konnectivity.antt =====
-- pkg/resources/addons/konnectivity.go: the agent that keeps the tunnel to the API server. Of the
-- directory and the file names none ends or starts with a slash, so filepath.Join puts one between them.
use Prim.Native.String.{◌++◌}
use controlplane_operator.Base.{ℕ, String, true, some, List, [], ◌∷◌}
use controlplane_operator.Utils.Text.{port_string}
use controlplane_operator.Cluster.{
  ClusterContext, VolumeMount, join, get_managed_control_plane_status,
}
use controlplane_operator.Cluster.Konnectivity as Names
use controlplane_operator.Builders.Pipe.{◌▷◌}
use controlplane_operator.Builders.Pod.{Container, Volume, projected, new_container}
use controlplane_operator.Builders.DaemonSet
use controlplane_operator.Builders.DaemonSet.{DaemonSet}
use controlplane_operator.AddonResources.Objects.{
  Object, daemon_set_object, part_of, key_ca_crt, key_tls_crt, key_tls_key,
}

abbrev pub konnectivity_agent_name : String
konnectivity_agent_name = "konnectivity-agent"

abbrev pub konnectivity_agent_ds_name : String
konnectivity_agent_ds_name = "konnectivity-agent"

abbrev pub konnectivity_agent_namespace : String
konnectivity_agent_namespace = "kube-system"

abbrev pub konnectivity_server_port : ℕ
konnectivity_server_port = 8132

abbrev pub konnectivity_agent_volume_name : String
konnectivity_agent_volume_name = "agent-certs"

abbrev pub konnectivity_agent_version : String
konnectivity_agent_version = "v0.1.3"

abbrev pub mount_dir : String
mount_dir = "/var/run/konnectivity"

abbrev pub labels : List (String × String)
labels = ("app", Names.agent_name) ∷ []

unfoldable pub arguments : ClusterContext → List String
arguments cc =
    ("--proxy-server-host=" ++ (get_managed_control_plane_status cc).address)
    ∷ ("--proxy-server-port=" ++ port_string konnectivity_server_port)
    ∷ ("--ca-cert=" ++ join mount_dir key_ca_crt)
    ∷ ("--agent-cert=" ++ join mount_dir key_tls_crt)
    ∷ ("--agent-key=" ++ join mount_dir key_tls_key)
    ∷ "--v=2"
    ∷ []

unfoldable pub container : ClusterContext → Container
container cc =
    record (new_container konnectivity_agent_name
      ("registry.k8s.io/kas-network-proxy/proxy-agent:" ++ konnectivity_agent_version)) {
        args = arguments cc;
      }

-- Both secrets, in one directory.
unfoldable pub volume : ClusterContext → Volume
volume cc = record {
  name = konnectivity_agent_volume_name;
  source = projected (
      (Names.agent_tls_secret cc, (key_tls_crt, key_tls_crt) ∷ (key_tls_key, key_tls_key) ∷ [])
      ∷ (Names.ca_secret cc, (key_ca_crt, key_ca_crt) ∷ [])
      ∷ []);
}

abbrev pub volume_mount : VolumeMount
volume_mount = record {
  name = konnectivity_agent_volume_name;
  read_only = true;
  mount_path = mount_dir;
}

unfoldable pub build_konnectivity_agent_daemon_set : ClusterContext → DaemonSet
build_konnectivity_agent_daemon_set cc =
    DaemonSet.new_daemon_set
    ▷ DaemonSet.with_name konnectivity_agent_ds_name
    ▷ DaemonSet.with_namespace konnectivity_agent_namespace
    ▷ DaemonSet.with_labels labels
    ▷ DaemonSet.with_annotations part_of
    ▷ DaemonSet.with_selector labels
    ▷ DaemonSet.with_pod_labels (some labels)
    ▷ DaemonSet.with_container (container cc)
    ▷ DaemonSet.with_dns_policy "ClusterFirstWithHostNet"
    ▷ DaemonSet.with_host_network
    ▷ DaemonSet.add_volumes (volume cc ∷ [])
    ▷ DaemonSet.add_volume_mounts (container cc).name (volume_mount ∷ [])
    ▷ DaemonSet.build

unfoldable pub build_konnectivity_agent : ClusterContext → List Object
build_konnectivity_agent cc = daemon_set_object (build_konnectivity_agent_daemon_set cc) ∷ []
