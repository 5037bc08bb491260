-- ===== src/Workloads/Etcd.antt =====
-- pkg/resources/etcd/etcd.go: the headless service and the StatefulSet of the one etcd member.
use Prim.Native.String.{◌++◌}
use controlplane_operator.Base.{String, Option, none, some, true, false, List, [], ◌∷◌}
use controlplane_operator.Utils.Text.{port_string}
use controlplane_operator.Cluster.{
  ClusterContext, VolumeMount, namespace, secret_mount, secret_volume,
}
use controlplane_operator.Cluster.Etcd
use controlplane_operator.Builders.Pipe.{◌▷◌}
use controlplane_operator.Builders.Pod.{
  pod_port, env_value, Container, Probe, Volume, etcd_health_probe, of_secret,
}
use controlplane_operator.Builders.Service
use controlplane_operator.Builders.Service.{Service}
use controlplane_operator.Builders.StatefulSet
use controlplane_operator.Builders.StatefulSet.{StatefulSet, VolumeClaim}

abbrev pub etcd_version : String
etcd_version = "3.6.5-0"

abbrev pub labels : List (String × String)
labels = ("app", "etcd") ∷ []

unfoldable pub build_service : ClusterContext → Service
build_service cc =
    Service.new_service
    ▷ Service.with_name (Etcd.service_name cc)
    ▷ Service.with_namespace (namespace cc)
    ▷ Service.headless
    ▷ Service.with_labels labels
    ▷ Service.with_selector labels
    ▷ Service.add_port "client" Etcd.client_port Etcd.client_port "TCP"
    ▷ Service.add_port "peer" Etcd.peer_port Etcd.peer_port "TCP"
    ▷ Service.build

abbrev pub volumes : ClusterContext → List Volume
volumes cc =
    of_secret (secret_volume cc (Etcd.ca_secret cc))
    ∷ of_secret (secret_volume cc (Etcd.server_tls_secret cc))
    ∷ of_secret (secret_volume cc (Etcd.peer_tls_secret cc))
    ∷ of_secret (secret_volume cc (Etcd.health_client_tls_secret cc))
    ∷ []

abbrev pub mounts : ClusterContext → List VolumeMount
mounts cc =
    secret_mount cc (Etcd.ca_secret cc) true
    ∷ secret_mount cc (Etcd.server_tls_secret cc) true
    ∷ secret_mount cc (Etcd.peer_tls_secret cc) true
    ∷ secret_mount cc (Etcd.health_client_tls_secret cc) true
    ∷ []

-- An argument is a flag and its value.
abbrev flag : String → String → String
flag name value = name ++ value

unfoldable pub arguments : ClusterContext → List String
arguments cc =
    flag "--name=" (Etcd.member_name cc)
    ∷ flag "--data-dir=" Etcd.data_dir
    ∷ flag "--listen-client-urls=https://0.0.0.0:" (port_string Etcd.client_port)
    ∷ flag "--advertise-client-urls=https://" (Etcd.member_fqdn_client cc)
    ∷ flag "--listen-peer-urls=https://0.0.0.0:" (port_string Etcd.peer_port)
    ∷ flag "--initial-advertise-peer-urls=https://" (Etcd.member_fqdn_peer cc)
    ∷ flag "--initial-cluster=" (Etcd.member_name cc ++ "=https://" ++ Etcd.member_fqdn_peer cc)
    ∷ "--initial-cluster-state=new"
    ∷ "--client-cert-auth=true"
    ∷ "--peer-client-cert-auth=true"
    ∷ flag "--trusted-ca-file=" (Etcd.ca_path cc)
    ∷ flag "--cert-file=" (Etcd.server_cert_path cc)
    ∷ flag "--key-file=" (Etcd.server_key_path cc)
    ∷ flag "--peer-trusted-ca-file=" (Etcd.ca_path cc)
    ∷ flag "--peer-cert-file=" (Etcd.peer_cert_path cc)
    ∷ flag "--peer-key-file=" (Etcd.peer_key_path cc)
    ∷ []

abbrev pub health_probe : ClusterContext → Option Probe
health_probe cc = some (
    etcd_health_probe (Etcd.ca_path cc) (Etcd.health_client_cert_path cc)
      (Etcd.health_client_key_path cc))

unfoldable pub etcd_container : ClusterContext → Container
unfolding arguments
etcd_container cc = record {
  name = Etcd.service_name cc;
  image = "registry.k8s.io/etcd:" ++ etcd_version;
  image_pull_policy = "";
  command = "etcd" ∷ [];
  args = arguments cc;
  env = ("ETCDCTL_API", env_value "3") ∷ [];
  ports = pod_port "client" Etcd.client_port ∷ pod_port "peer" Etcd.peer_port ∷ [];
  startup_probe = health_probe cc;
  liveness_probe = health_probe cc;
  readiness_probe = health_probe cc;
  security_context = none;
  requests = [];
  volume_mounts =
      record { name = Etcd.stateful_set_name cc; read_only = false; mount_path = Etcd.data_dir }
      ∷ mounts cc;
}

abbrev pub claim : ClusterContext → VolumeClaim
claim cc = record {
  name = Etcd.stateful_set_name cc;
  access_modes = "ReadWriteOnce" ∷ [];
  storage = Etcd.default_storage;
}

unfoldable pub build_stateful_set : ClusterContext → StatefulSet
unfolding etcd_container
build_stateful_set cc =
    StatefulSet.new_stateful_set
    ▷ StatefulSet.with_name (Etcd.stateful_set_name cc)
    ▷ StatefulSet.with_namespace (namespace cc)
    ▷ StatefulSet.with_labels labels
    ▷ StatefulSet.with_selector labels
    ▷ StatefulSet.with_replicas 1
    ▷ StatefulSet.with_service_name (Etcd.service_name cc)
    ▷ StatefulSet.with_container (etcd_container cc)
    ▷ StatefulSet.add_volumes (volumes cc)
    ▷ StatefulSet.with_volume_claims (claim cc ∷ [])
    ▷ StatefulSet.build

pub data Object : Type 0 where
  service_object : Service → Object
  stateful_set_object : StatefulSet → Object

unfoldable pub objects : ClusterContext → List Object
unfolding build_service build_stateful_set
objects cc = service_object (build_service cc) ∷ stateful_set_object (build_stateful_set cc) ∷ []
