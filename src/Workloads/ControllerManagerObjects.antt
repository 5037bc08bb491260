-- ===== src/Workloads/ControllerManagerObjects.antt =====
-- pkg/resources/controllermanager/controllermanager.go: the kubeconfig and the Deployment of the
-- controller manager.
-- clientcmd.Write is a parameter; where it fails, the code panics, and there is no ConfigMap.
use Prim.Native.String.{◌++◌}
use controlplane_operator.Base.{ℕ, String, Option, none, some, true, List, [], ◌∷◌, Result, ok, err}
use controlplane_operator.Api.{NetworkingSpec}
use controlplane_operator.Utils.Kubeconfig.{Config, build_component_kubeconfig}
use controlplane_operator.Cluster.{
  ClusterContext, VolumeMount, namespace, name, secret_mount, secret_volume, cert_path, key_path,
}
use controlplane_operator.Cluster.ApiServer
use controlplane_operator.Cluster.ControllerManager
use controlplane_operator.Builders.Pipe.{◌▷◌}
use controlplane_operator.Builders.Pod.{
  pod_port, Container, Volume, https_health_probe, config_map_volume, of_secret,
}
use controlplane_operator.Builders.ConfigMap
use controlplane_operator.Builders.ConfigMap.{ConfigMap}
use controlplane_operator.Builders.Deployment
use controlplane_operator.Builders.Deployment.{Deployment}

abbrev pub secure_port : ℕ
secure_port = 10257

abbrev pub kubeconfig_key : String
kubeconfig_key = "controller-manager.conf"

abbrev pub kubeconfig_file_name : String
kubeconfig_file_name = "controller-manager.conf"

abbrev pub kubeconfig_volume_name : String
kubeconfig_volume_name = "kubeconfig"

abbrev pub kubeconfig_mount_dir : String
kubeconfig_mount_dir = "/etc/kubernetes"

abbrev pub kubeconfig_path : String
kubeconfig_path = kubeconfig_mount_dir ++ "/" ++ kubeconfig_file_name

abbrev pub labels : List (String × String)
labels = ("app", "kube-controller-manager") ∷ []

unfoldable pub kubeconfig : ClusterContext → Config
kubeconfig cc =
    build_component_kubeconfig (namespace cc) (ApiServer.service_name cc) 6443 "cm"
      (cert_path cc (ControllerManager.cluster_ca_secret cc))
      (cert_path cc (ControllerManager.client_cert_secret cc))
      (key_path cc (ControllerManager.client_cert_secret cc))

unfoldable pub config_map_of : ClusterContext → String → ConfigMap
config_map_of cc written =
    ConfigMap.new_config_map
    ▷ ConfigMap.with_name (ControllerManager.kubeconfig_config_map_name cc)
    ▷ ConfigMap.with_namespace (namespace cc)
    ▷ ConfigMap.put kubeconfig_key written
    ▷ ConfigMap.build

unfoldable pub build_config_map : (Config → Result String) → ClusterContext → Option ConfigMap
build_config_map write cc = elim (write (kubeconfig cc)) [
  | err e ↦ none
  | ok written ↦ some (config_map_of cc written)
]

abbrev pub kubeconfig_volume : ClusterContext → Volume
kubeconfig_volume cc =
    config_map_volume kubeconfig_volume_name (ControllerManager.kubeconfig_config_map_name cc)
      kubeconfig_key kubeconfig_file_name

abbrev pub kubeconfig_mount : VolumeMount
kubeconfig_mount = record {
  name = kubeconfig_volume_name;
  read_only = true;
  mount_path = kubeconfig_mount_dir;
}

-- An argument is a flag and its value.
abbrev flag : String → String → String
flag name value = name ++ value

unfoldable pub arguments : ClusterContext → NetworkingSpec → List String
arguments cc networking =
    "--bind-address=0.0.0.0"
    ∷ flag "--cluster-name=" (name cc)
    ∷ flag "--kubeconfig=" kubeconfig_path
    ∷ flag "--authentication-kubeconfig=" kubeconfig_path
    ∷ flag "--authorization-kubeconfig=" kubeconfig_path
    ∷ "--leader-elect=true"
    ∷ "--use-service-account-credentials=true"
    ∷ "--controllers=*,bootstrapsigner,tokencleaner"
    ∷ flag "--service-account-private-key-file="
        (key_path cc (ControllerManager.sa_signer_secret cc))
    ∷ flag "--cluster-signing-cert-file=" (cert_path cc (ControllerManager.cluster_ca_secret cc))
    ∷ flag "--cluster-signing-key-file=" (key_path cc (ControllerManager.cluster_ca_secret cc))
    ∷ "--feature-gates=RotateKubeletServerCertificate=true"
    ∷ flag "--client-ca-file=" (cert_path cc (ControllerManager.cluster_ca_secret cc))
    ∷ flag "--root-ca-file=" (cert_path cc (ControllerManager.cluster_ca_secret cc))
    ∷ flag "--cluster-cidr=" networking.pod_cidr
    ∷ "--allocate-node-cidrs=true"
    ∷ "--logging-format=json"
    ∷ []

unfoldable pub container : ClusterContext → NetworkingSpec → Container
container cc networking = record {
  name = "kube-controller-manager";
  image = "registry.k8s.io/kube-controller-manager:" ++ cc.spec.kubernetes.version;
  image_pull_policy = "IfNotPresent";
  command = "kube-controller-manager" ∷ [];
  args = arguments cc networking;
  env = [];
  ports = pod_port "https" secure_port ∷ [];
  startup_probe = some (https_health_probe secure_port "/healthz" 0 5 5 60);
  liveness_probe = some (https_health_probe secure_port "/healthz" 10 10 15 8);
  readiness_probe = some (https_health_probe secure_port "/healthz" 5 5 15 3);
  security_context = none;
  requests = [];
  volume_mounts = [];
}

abbrev pub volumes : ClusterContext → List Volume
volumes cc =
    kubeconfig_volume cc
    ∷ of_secret (secret_volume cc (ControllerManager.cluster_ca_secret cc))
    ∷ of_secret (secret_volume cc (ControllerManager.client_cert_secret cc))
    ∷ of_secret (secret_volume cc (ControllerManager.sa_signer_secret cc))
    ∷ []

unfoldable pub mounts : ClusterContext → List VolumeMount
mounts cc =
    kubeconfig_mount
    ∷ secret_mount cc (ControllerManager.cluster_ca_secret cc) true
    ∷ secret_mount cc (ControllerManager.client_cert_secret cc) true
    ∷ secret_mount cc (ControllerManager.sa_signer_secret cc) true
    ∷ []

unfoldable pub deployment_with : ClusterContext → NetworkingSpec → Deployment
deployment_with cc networking =
    Deployment.new_deployment
    ▷ Deployment.with_name (ControllerManager.deployment_name cc)
    ▷ Deployment.with_namespace (namespace cc)
    ▷ Deployment.with_labels labels
    ▷ Deployment.with_selector labels
    ▷ Deployment.with_replicas 1
    ▷ Deployment.with_container (container cc networking)
    ▷ Deployment.add_volumes (volumes cc)
    ▷ Deployment.add_volume_mounts "kube-controller-manager" (mounts cc)
    ▷ Deployment.build

-- The networking section is dereferenced, so there is no Deployment without one.
unfoldable pub build_deployment : ClusterContext → Option Deployment
build_deployment cc = elim cc.spec.kubernetes.networking [
  | none ↦ none
  | some networking ↦ some (deployment_with cc networking)
]
