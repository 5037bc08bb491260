-- ===== src/Workloads/ApiServerDeployment.antt =====
-- pkg/resources/apiserver/apiserver.go, `buildDeployment`: the volumes, the konnectivity server, and
-- the Deployment.
use Prim.Native.String.{◌++◌}
use controlplane_operator.Base.{String, Option, none, some, true, List, [], ◌∷◌}
use controlplane_operator.Api.{NetworkingSpec}
use controlplane_operator.Utils.Text.{port_string}
use controlplane_operator.Cluster.{
  ClusterContext, VolumeMount, namespace, secret_mount, secret_volume, cert_path, key_path, ca_path,
}
use controlplane_operator.Cluster.ApiServer
use controlplane_operator.Builders.Pipe.{◌▷◌}
use controlplane_operator.Builders.ConfigMap.{ConfigMap}
use controlplane_operator.Builders.Pod.{Container, Volume, of_secret}
use controlplane_operator.Builders.Deployment
use controlplane_operator.Builders.Deployment.{Deployment}
use controlplane_operator.Workloads.ApiServer.{
  EgressSelection, apiserver_container, build_konnectivity_config_map, labels, uds_file,
  konnectivity_server_port, konnectivity_server_version, konnectivity_uds_volume,
  konnectivity_config_volume, konnectivity_uds_volume_mount, konnectivity_config_volume_mount,
}

abbrev pub volume_of : ClusterContext → String → Volume
volume_of cc secret = of_secret (secret_volume cc secret)

abbrev pub volumes : ClusterContext → List Volume
volumes cc =
    volume_of cc (ApiServer.client_ca_secret cc)
    ∷ volume_of cc (ApiServer.serving_tls_secret cc)
    ∷ volume_of cc (ApiServer.etcd_ca_secret cc)
    ∷ volume_of cc (ApiServer.etcd_client_secret cc)
    ∷ volume_of cc (ApiServer.kubelet_client_secret cc)
    ∷ volume_of cc (ApiServer.sa_signer_secret cc)
    ∷ volume_of cc (ApiServer.front_proxy_ca_secret cc)
    ∷ volume_of cc (ApiServer.front_proxy_client_secret cc)
    ∷ volume_of cc (ApiServer.konnectivity_server_secret cc)
    ∷ volume_of cc (ApiServer.konnectivity_ca_secret cc)
    ∷ []

unfoldable pub mounts : ClusterContext → List VolumeMount
mounts cc =
    secret_mount cc (ApiServer.client_ca_secret cc) true
    ∷ secret_mount cc (ApiServer.serving_tls_secret cc) true
    ∷ secret_mount cc (ApiServer.etcd_ca_secret cc) true
    ∷ secret_mount cc (ApiServer.etcd_client_secret cc) true
    ∷ secret_mount cc (ApiServer.kubelet_client_secret cc) true
    ∷ secret_mount cc (ApiServer.sa_signer_secret cc) true
    ∷ secret_mount cc (ApiServer.front_proxy_ca_secret cc) true
    ∷ secret_mount cc (ApiServer.front_proxy_client_secret cc) true
    ∷ []

-- An argument is a flag and its value.
abbrev flag : String → String → String
flag name value = name ++ value

unfoldable pub konnectivity_container : ClusterContext → Container
konnectivity_container cc = record {
  name = "konnectivity-server";
  image = "registry.k8s.io/kas-network-proxy/proxy-server:" ++ konnectivity_server_version;
  image_pull_policy = "";
  command = [];
  args =
      "--mode=grpc"
      ∷ flag "--uds-name=" uds_file
      ∷ "--delete-existing-uds-file=true"
      ∷ flag "--cluster-cert=" (cert_path cc (ApiServer.konnectivity_server_secret cc))
      ∷ flag "--cluster-key=" (key_path cc (ApiServer.konnectivity_server_secret cc))
      ∷ flag "--cluster-ca-cert=" (ca_path cc (ApiServer.konnectivity_ca_secret cc))
      ∷ flag "--agent-port=" (port_string konnectivity_server_port)
      ∷ "--server-port=0"
      ∷ "--v=2"
      ∷ [];
  env = [];
  ports = [];
  startup_probe = none;
  liveness_probe = none;
  readiness_probe = none;
  security_context = none;
  requests = [];
  volume_mounts = [];
}

unfoldable pub deployment_with : ClusterContext → NetworkingSpec → Deployment
unfolding apiserver_container konnectivity_container mounts
deployment_with cc networking =
    Deployment.new_deployment
    ▷ Deployment.with_name (ApiServer.deployment_name cc)
    ▷ Deployment.with_namespace (namespace cc)
    ▷ Deployment.with_labels labels
    ▷ Deployment.with_selector labels
    ▷ Deployment.with_replicas 1
    ▷ Deployment.with_container (apiserver_container cc networking)
    ▷ Deployment.add_volumes (konnectivity_uds_volume ∷ konnectivity_config_volume cc ∷ volumes cc)
    ▷ Deployment.add_volume_mounts "apiserver"
        (konnectivity_config_volume_mount ∷ konnectivity_uds_volume_mount ∷ mounts cc)
    ▷ Deployment.with_container (konnectivity_container cc)
    ▷ Deployment.add_volume_mounts "konnectivity-server" (
        konnectivity_uds_volume_mount
        ∷ secret_mount cc (ApiServer.konnectivity_server_secret cc) true
        ∷ secret_mount cc (ApiServer.konnectivity_ca_secret cc) true
        ∷ [])
    ▷ Deployment.build

-- The networking section is dereferenced, so there is no Deployment without one.
unfoldable pub build_deployment : ClusterContext → Option Deployment
unfolding deployment_with
build_deployment cc = elim cc.spec.kubernetes.networking [
  | none ↦ none
  | some networking ↦ some (deployment_with cc networking)
]

pub data Object : Type 0 where
  deployment_object : Deployment → Object
  config_map_object : ConfigMap → Object

-- workloadBuilder.Objects
unfoldable pub objects : (List EgressSelection → String) → ClusterContext → Option (List Object)
unfolding build_konnectivity_config_map build_deployment
objects yaml cc = elim (build_deployment cc) [
  | none ↦ none
  | some d ↦
      some (deployment_object d ∷ config_map_object (build_konnectivity_config_map yaml cc) ∷ [])
]
