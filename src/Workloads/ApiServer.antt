-- ===== src/Workloads/ApiServer.antt =====
-- pkg/resources/apiserver/apiserver.go: the service, the Deployment of the API server with its
-- konnectivity server, and the ConfigMap of the egress selector. utils.GetObjYaml is a parameter.
use Prim.Native.String.{◌++◌}
use controlplane_operator.Base.{ℕ, String, Option, none, some, true, false, List, [], ◌∷◌}
use controlplane_operator.Api.{NetworkingSpec}
use controlplane_operator.Cluster.{
  ClusterContext, VolumeMount, namespace, cert_path, key_path, ca_path, join,
}
use controlplane_operator.Cluster.ApiServer
use controlplane_operator.Cluster.Etcd
use controlplane_operator.Builders.Pipe.{◌▷◌}
use controlplane_operator.Builders.Pod.{
  pod_port, Container, Volume, https_health_probe, config_map_volume, empty_dir_volume,
}
use controlplane_operator.Builders.ConfigMap
use controlplane_operator.Builders.ConfigMap.{ConfigMap}
use controlplane_operator.Builders.Service
use controlplane_operator.Builders.Service.{Service}

abbrev pub konnectivity_server_version : String
konnectivity_server_version = "v0.1.3"

abbrev pub secure_port : ℕ
secure_port = 6443

abbrev pub grpc_port : ℕ
grpc_port = 8132

abbrev pub konnectivity_server_port : ℕ
konnectivity_server_port = 8132

abbrev pub labels : List (String × String)
labels = ("app", "kube-apiserver") ∷ []

abbrev pub konnectivity_server_mount_dir : String
konnectivity_server_mount_dir = "/etc/konnectivity"

abbrev pub konnectivity_config_map_key : String
konnectivity_config_map_key = "konnectivity-egress-selector.yaml"

abbrev pub konnectivity_conf_file_name : String
konnectivity_conf_file_name = "konnectivity-egress-selector.yaml"

abbrev pub konnectivity_conf_file_path : String
konnectivity_conf_file_path = "/etc/konnectivity/konnectivity-egress-selector.yaml"

abbrev pub konnectivity_server_uds : String
konnectivity_server_uds = "konnectivity-uds"

abbrev pub konnectivity_uds_file : String
konnectivity_uds_file = "konnectivity-uds.sock"

abbrev pub konnectivity_config_volume_name : String
konnectivity_config_volume_name = "egress-selector"

unfoldable pub build_service : ClusterContext → Service
build_service cc =
    Service.new_service
    ▷ Service.with_name (ApiServer.service_name cc)
    ▷ Service.with_namespace (namespace cc)
    ▷ Service.with_labels labels
    ▷ Service.with_selector labels
    ▷ Service.add_port "https" secure_port secure_port "TCP"
    ▷ Service.add_port "grpc" grpc_port grpc_port "TCP"
    ▷ Service.with_type "LoadBalancer"
    ▷ Service.build

-- apiserverv1beta.EgressSelection; the path of the socket, where the transport has one.
pub record EgressSelection : Type 0 where
  pub name : String
  pub proxy_protocol : String
  pub uds_name : Option String

abbrev pub egress_selections : List EgressSelection
egress_selections =
    record {
      name = "cluster";
      proxy_protocol = "GRPC";
      uds_name =
          some (
            join (join konnectivity_server_mount_dir konnectivity_server_uds)
              konnectivity_uds_file);
    }
    ∷ record { name = "controlplane"; proxy_protocol = "Direct"; uds_name = none }
    ∷ []

unfoldable pub build_konnectivity_config_map :
    (List EgressSelection → String) → ClusterContext → ConfigMap
build_konnectivity_config_map yaml cc =
    ConfigMap.new_config_map
    ▷ ConfigMap.with_name (ApiServer.konnectivity_config_map_name cc)
    ▷ ConfigMap.with_namespace (namespace cc)
    ▷ ConfigMap.put konnectivity_config_map_key (yaml egress_selections)
    ▷ ConfigMap.build

abbrev pub konnectivity_uds_dir : String
konnectivity_uds_dir = join konnectivity_server_mount_dir konnectivity_server_uds

abbrev pub uds_file : String
uds_file = join konnectivity_uds_dir konnectivity_uds_file

abbrev pub konnectivity_config_volume : ClusterContext → Volume
konnectivity_config_volume cc =
    config_map_volume konnectivity_config_volume_name (ApiServer.konnectivity_config_map_name cc)
      konnectivity_config_map_key konnectivity_conf_file_name

abbrev pub konnectivity_config_volume_mount : VolumeMount
konnectivity_config_volume_mount = record {
  name = konnectivity_config_volume_name;
  read_only = true;
  mount_path = konnectivity_server_mount_dir;
}

abbrev pub konnectivity_uds_volume : Volume
konnectivity_uds_volume = empty_dir_volume konnectivity_server_uds

abbrev pub konnectivity_uds_volume_mount : VolumeMount
konnectivity_uds_volume_mount = record {
  name = konnectivity_server_uds;
  read_only = false;
  mount_path = konnectivity_uds_dir;
}

-- An argument is a flag and its value.
abbrev flag : String → String → String
flag name value = name ++ value

unfoldable pub arguments : ClusterContext → NetworkingSpec → List String
arguments cc networking =
    flag "--advertise-address=" cc.status.address
    ∷ "--bind-address=0.0.0.0"
    ∷ "--secure-port=6443"
    ∷ flag "--service-cluster-ip-range=" networking.service_cidr
    ∷ flag "--etcd-servers=https://" (Etcd.member_fqdn_client cc)
    ∷ flag "--etcd-cafile=" (ca_path cc (ApiServer.etcd_ca_secret cc))
    ∷ flag "--etcd-certfile=" (cert_path cc (ApiServer.etcd_client_secret cc))
    ∷ flag "--etcd-keyfile=" (key_path cc (ApiServer.etcd_client_secret cc))
    ∷ flag "--client-ca-file=" (cert_path cc (ApiServer.client_ca_secret cc))
    ∷ flag "--tls-cert-file=" (cert_path cc (ApiServer.serving_tls_secret cc))
    ∷ flag "--tls-private-key-file=" (key_path cc (ApiServer.serving_tls_secret cc))
    ∷ flag "--kubelet-client-certificate=" (cert_path cc (ApiServer.kubelet_client_secret cc))
    ∷ flag "--kubelet-client-key=" (key_path cc (ApiServer.kubelet_client_secret cc))
    ∷ "--kubelet-preferred-address-types=InternalIP,Hostname,InternalDNS,ExternalIP,ExternalDNS"
    ∷ "--authorization-mode=Node,RBAC"
    ∷ "--enable-bootstrap-token-auth=true"
    ∷ "--enable-admission-plugins=NodeRestriction"
    ∷ "--service-account-issuer=https://kubernetes.default.svc.cluster.local"
    ∷ flag "--service-account-key-file=" (cert_path cc (ApiServer.sa_signer_secret cc))
    ∷ flag "--service-account-signing-key-file=" (key_path cc (ApiServer.sa_signer_secret cc))
    ∷ "--allow-privileged=true"
    ∷ flag "--egress-selector-config-file=" konnectivity_conf_file_path
    ∷ "--logging-format=json"
    ∷ []

unfoldable pub apiserver_container : ClusterContext → NetworkingSpec → Container
unfolding arguments
apiserver_container cc networking = record {
  name = "apiserver";
  image = "registry.k8s.io/kube-apiserver:" ++ cc.spec.kubernetes.version;
  image_pull_policy = "IfNotPresent";
  command = "kube-apiserver" ∷ [];
  args = arguments cc networking;
  env = [];
  ports = pod_port "https" secure_port ∷ [];
  startup_probe = some (https_health_probe secure_port "/healthz" 0 5 5 60);
  liveness_probe = some (https_health_probe secure_port "/livez" 10 10 10 10);
  readiness_probe = some (https_health_probe secure_port "/readyz" 5 5 5 5);
  security_context = none;
  requests = [];
  volume_mounts = [];
}
