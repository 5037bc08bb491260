-- ===== src/AddonResources/KubeProxy.antt =====
-- pkg/resources/addons/kubeproxy.go. The networking section is dereferenced, so there is no ConfigMap
-- without one.
use Prim.Native.String.{◌++◌}
use controlplane_operator.Base.{ℕ, String, Option, none, some, true, false, List, [], ◌∷◌}
use controlplane_operator.Api.{NetworkingSpec}
use controlplane_operator.Cluster.{
  ClusterContext, VolumeMount, get_kubernetes_version, get_managed_control_plane_status,
}
use controlplane_operator.Builders.Pipe.{◌▷◌}
use controlplane_operator.Builders.Pod.{
  Container, ContainerPort, Probe, Toleration, Volume, config_map_source, env_field, host_path,
  http_get, new_container,
}
use controlplane_operator.Builders.Rbac.{RoleRef, Subject}
use controlplane_operator.Builders.ConfigMap
use controlplane_operator.Builders.ConfigMap.{ConfigMap}
use controlplane_operator.Builders.DaemonSet
use controlplane_operator.Builders.DaemonSet.{DaemonSet}
use controlplane_operator.Builders.Rbac.ClusterRoleBinding
use controlplane_operator.Builders.Rbac.ClusterRoleBinding.{ClusterRoleBinding}
use controlplane_operator.Builders.ServiceAccount
use controlplane_operator.Builders.ServiceAccount.{ServiceAccount}
use controlplane_operator.AddonResources.Objects.{
  Object, account_object, cluster_role_binding_object, config_map_object, daemon_set_object,
  part_of, kind_service_account, rbac_api_group, text_of,
}

abbrev pub kube_proxy_name : String
kube_proxy_name = "kube-proxy"

abbrev pub kube_proxy_namespace_name : String
kube_proxy_namespace_name = "kube-system"

abbrev pub labels : List (String × String)
labels = ("k8s-app", "kube-proxy") ∷ []

unfoldable pub build_kubeproxy_service_account : ServiceAccount
build_kubeproxy_service_account =
    ServiceAccount.new_service_account
    ▷ ServiceAccount.with_name kube_proxy_name
    ▷ ServiceAccount.with_namespace kube_proxy_namespace_name
    ▷ ServiceAccount.with_labels labels
    ▷ ServiceAccount.with_annotations part_of
    ▷ ServiceAccount.build

abbrev pub role_ref : RoleRef
role_ref = record { api_group = rbac_api_group; kind = "ClusterRole"; name = "system:node-proxier" }

abbrev pub subject : Subject
subject = record {
  api_group = "";
  kind = kind_service_account;
  name = "kube-proxy";
  namespace = "kube-system";
}

unfoldable pub build_kubeproxy_cluster_role_binding : ClusterRoleBinding
build_kubeproxy_cluster_role_binding =
    ClusterRoleBinding.new_cluster_role_binding
    ▷ ClusterRoleBinding.with_name kube_proxy_name
    ▷ ClusterRoleBinding.with_annotations part_of
    ▷ ClusterRoleBinding.with_refs role_ref (subject ∷ [])
    ▷ ClusterRoleBinding.build

unfoldable pub config_conf : NetworkingSpec → String
config_conf networking = text_of (
    "apiVersion: kubeproxy.config.k8s.io/v1alpha1"
    ∷ "kind: KubeProxyConfiguration"
    ∷ "mode: \"iptables\""
    ∷ ("clusterCIDR: \"" ++ networking.service_cidr ++ "\"")
    ∷ "bindAddress: \"0.0.0.0\""
    ∷ "metricsBindAddress: \"127.0.0.1:10249\""
    ∷ "healthzBindAddress: \"0.0.0.0:10256\""
    ∷ "clientConnection:"
    ∷ "  kubeconfig: /var/lib/kube-proxy/kubeconfig.conf"
    ∷ "iptables:"
    ∷ "  masqueradeAll: false"
    ∷ "conntrack:"
    ∷ "  maxPerCore: 0"
    ∷ "  min: 131072"
    ∷ [])

unfoldable pub kubeconfig_conf : String → String
kubeconfig_conf server = text_of (
    "apiVersion: v1"
    ∷ "kind: Config"
    ∷ "clusters:"
    ∷ "- name: default"
    ∷ "  cluster:"
    ∷ ("    server: " ++ server)
    ∷ "    certificate-authority: /var/run/secrets/kubernetes.io/serviceaccount/ca.crt"
    ∷ "users:"
    ∷ "- name: kube-proxy"
    ∷ "  user:"
    ∷ "    tokenFile: /var/run/secrets/kubernetes.io/serviceaccount/token"
    ∷ "contexts:"
    ∷ "- name: default"
    ∷ "  context:"
    ∷ "    cluster: default"
    ∷ "    user: kube-proxy"
    ∷ "current-context: default"
    ∷ [])

unfoldable pub build_kubeproxy_config_map : ClusterContext → NetworkingSpec → ConfigMap
build_kubeproxy_config_map cc networking =
    let server : String = "https://" ++ (get_managed_control_plane_status cc).address ++ ":6443" in
    ConfigMap.new_config_map
    ▷ ConfigMap.with_name kube_proxy_name
    ▷ ConfigMap.with_namespace kube_proxy_namespace_name
    ▷ ConfigMap.with_annotations part_of
    ▷ ConfigMap.put "config.conf" (config_conf networking)
    ▷ ConfigMap.put "kubeconfig.conf" (kubeconfig_conf server)
    ▷ ConfigMap.build

abbrev pub tolerations : List Toleration
tolerations =
    record { operator = "Exists"; effect = "NoSchedule" }
    ∷ record { operator = "Exists"; effect = "NoExecute" }
    ∷ []

-- A TCP port that the node has too.
abbrev node_port : String → ℕ → ContainerPort
node_port name port = record {
  name = name;
  container_port = port;
  host_port = port;
  protocol = "TCP";
}

abbrev pub liveness_probe : Probe
liveness_probe = record {
  handler = http_get "" "" 10256 "/healthz";
  initial_delay_seconds = 10;
  period_seconds = 10;
  timeout_seconds = 0;
  failure_threshold = 0;
  success_threshold = 0;
}

unfoldable pub container : ClusterContext → Container
container cc =
    record (new_container "kube-proxy"
      ("registry.k8s.io/kube-proxy:" ++ get_kubernetes_version cc)) {
        command =
            "/usr/local/bin/kube-proxy" ∷ "--config=/var/lib/kube-proxy/config.conf"
            ∷ "--hostname-override=$(NODE_NAME)" ∷ [];
        env = ("NODE_NAME", env_field "v1" "spec.nodeName") ∷ [];
        security_context = some (record { privileged = some true; added_capabilities = [] });
        ports = node_port "metrics" 10249 ∷ node_port "healthz" 10256 ∷ [];
        liveness_probe = some liveness_probe;
      }

abbrev pub volume_mounts : List VolumeMount
volume_mounts =
    record { name = "kube-proxy"; read_only = false; mount_path = "/var/lib/kube-proxy" }
    ∷ record { name = "xtables-lock"; read_only = false; mount_path = "/run/xtables.lock" }
    ∷ record { name = "lib-modules"; read_only = true; mount_path = "/lib/modules" }
    ∷ []

abbrev pub volumes : List Volume
volumes =
    record {
      name = "kube-proxy";
      source =
          config_map_source "kube-proxy"
            (("config.conf", "config.conf") ∷ ("kubeconfig.conf", "kubeconfig.conf") ∷ []);
    }
    ∷ record { name = "xtables-lock"; source = host_path "/run/xtables.lock" "FileOrCreate" }
    ∷ record { name = "lib-modules"; source = host_path "/lib/modules" "Directory" }
    ∷ []

unfoldable pub build_kubeproxy_daemon_set : ClusterContext → DaemonSet
build_kubeproxy_daemon_set cc =
    DaemonSet.new_daemon_set
    ▷ DaemonSet.with_name kube_proxy_name
    ▷ DaemonSet.with_namespace kube_proxy_namespace_name
    ▷ DaemonSet.with_labels labels
    ▷ DaemonSet.with_annotations part_of
    ▷ DaemonSet.with_selector labels
    ▷ DaemonSet.with_pod_labels (some labels)
    ▷ DaemonSet.with_service_account kube_proxy_name
    ▷ DaemonSet.with_update_strategy "RollingUpdate"
    ▷ DaemonSet.with_host_network
    ▷ DaemonSet.with_priority_class "system-node-critical"
    ▷ DaemonSet.with_tolerations tolerations
    ▷ DaemonSet.with_node_selector (some (("kubernetes.io/os", "linux") ∷ []))
    ▷ DaemonSet.with_priority_class "system-node-critical"
    ▷ DaemonSet.with_container (container cc)
    ▷ DaemonSet.add_volumes volumes
    ▷ DaemonSet.add_volume_mounts (container cc).name volume_mounts
    ▷ DaemonSet.build

unfoldable pub build_kubeproxy : ClusterContext → Option (List Object)
build_kubeproxy cc = elim cc.spec.kubernetes.networking [
  | none ↦ none
  | some networking ↦ some (
      account_object build_kubeproxy_service_account
      ∷ cluster_role_binding_object build_kubeproxy_cluster_role_binding
      ∷ config_map_object (build_kubeproxy_config_map cc networking)
      ∷ daemon_set_object (build_kubeproxy_daemon_set cc)
      ∷ [])
]
