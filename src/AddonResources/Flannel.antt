-- ===== src/AddonResources/Flannel.antt =====
-- pkg/resources/addons/flannel.go. The networking section is dereferenced, so there is no ConfigMap
-- without one. Quantities are their texts.
use Prim.Native.String.{◌++◌}
use controlplane_operator.Base.{String, Option, none, some, false, List, [], ◌∷◌}
use controlplane_operator.Api.{NetworkingSpec}
use controlplane_operator.Cluster.{ClusterContext, VolumeMount}
use controlplane_operator.Builders.Pipe.{◌▷◌}
use controlplane_operator.Builders.Pod.{
  Container, NodeRequirement, Toleration, Volume, config_map_source, env_field, env_value,
  host_path, new_container,
}
use controlplane_operator.Builders.Rbac.{PolicyRule, Subject}
use controlplane_operator.Builders.ConfigMap
use controlplane_operator.Builders.ConfigMap.{ConfigMap}
use controlplane_operator.Builders.DaemonSet
use controlplane_operator.Builders.DaemonSet.{DaemonSet}
use controlplane_operator.Builders.Namespace
use controlplane_operator.Builders.Namespace.{Namespace}
use controlplane_operator.Builders.Rbac.ClusterRole
use controlplane_operator.Builders.Rbac.ClusterRole.{ClusterRole}
use controlplane_operator.Builders.Rbac.ClusterRoleBinding
use controlplane_operator.Builders.Rbac.ClusterRoleBinding.{ClusterRoleBinding}
use controlplane_operator.Builders.ServiceAccount
use controlplane_operator.Builders.ServiceAccount.{ServiceAccount}
use controlplane_operator.AddonResources.Objects.{
  Object, account_object, cluster_role_binding_object, cluster_role_object, config_map_object,
  core_api_group, daemon_set_object, kind_cluster_role, kind_service_account, namespace_object,
  part_of, rbac_api_group,
}

abbrev pub namespace_name : String
namespace_name = "kube-flannel"

abbrev pub service_account_name : String
service_account_name = "flannel"

abbrev pub config_map_name : String
config_map_name = "kube-flannel-cfg"

abbrev pub daemon_set_name : String
daemon_set_name = "kube-flannel-ds"

abbrev pub cluster_role_name : String
cluster_role_name = "flannel"

abbrev pub cluster_role_binding_name : String
cluster_role_binding_name = "flannel"

abbrev pub flannel_image : String
flannel_image = "ghcr.io/flannel-io/flannel:v0.27.4"

abbrev pub cni_plugin_image : String
cni_plugin_image = "ghcr.io/flannel-io/flannel-cni-plugin:v1.8.0-flannel1"

abbrev pub backend_type : String
backend_type = "vxlan"

abbrev pub def_flannel_labels : List (String × String)
def_flannel_labels = ("app", "flannel") ∷ ("k8s-app", "flannel") ∷ []

abbrev pub def_flannel_ns_labels : List (String × String)
def_flannel_ns_labels =
    ("k8s-app", "flannel") ∷ ("pod-security.kubernetes.io/enforce", "privileged") ∷ []

unfoldable pub build_flannel_namespace : Namespace
build_flannel_namespace =
    Namespace.new_namespace
    ▷ Namespace.with_name namespace_name
    ▷ Namespace.with_labels def_flannel_ns_labels
    ▷ Namespace.with_annotations part_of
    ▷ Namespace.build

abbrev rule : List String → List String → PolicyRule
rule resources verbs = record {
  api_groups = core_api_group ∷ [];
  resources = resources;
  resource_names = [];
  verbs = verbs;
}

unfoldable pub build_flannel_cluster_role : ClusterRole
build_flannel_cluster_role =
    ClusterRole.new_cluster_role
    ▷ ClusterRole.with_name cluster_role_name
    ▷ ClusterRole.with_labels def_flannel_labels
    ▷ ClusterRole.with_annotations part_of
    ▷ ClusterRole.with_rules (
        rule ("pods" ∷ []) ("get" ∷ [])
        ∷ rule ("nodes" ∷ []) ("get" ∷ "list" ∷ "watch" ∷ [])
        ∷ rule ("nodes/status" ∷ []) ("patch" ∷ [])
        ∷ [])
    ▷ ClusterRole.build

abbrev pub subject : Subject
subject = record {
  api_group = "";
  kind = kind_service_account;
  name = service_account_name;
  namespace = namespace_name;
}

unfoldable pub build_flannel_cluster_role_binding : ClusterRoleBinding
build_flannel_cluster_role_binding =
    ClusterRoleBinding.new_cluster_role_binding
    ▷ ClusterRoleBinding.with_name cluster_role_binding_name
    ▷ ClusterRoleBinding.with_labels def_flannel_labels
    ▷ ClusterRoleBinding.with_annotations part_of
    ▷ ClusterRoleBinding.with_refs
        (record { api_group = rbac_api_group; kind = kind_cluster_role; name = cluster_role_name })
        (subject ∷ [])
    ▷ ClusterRoleBinding.build

unfoldable pub build_flannel_service_account : ServiceAccount
build_flannel_service_account =
    ServiceAccount.new_service_account
    ▷ ServiceAccount.with_name service_account_name
    ▷ ServiceAccount.with_namespace namespace_name
    ▷ ServiceAccount.with_labels def_flannel_ns_labels
    ▷ ServiceAccount.with_annotations part_of
    ▷ ServiceAccount.build

abbrev pub cni_conf : String
cni_conf =
    "{\n" ++ "  \"name\": \"cbr0\",\n" ++ "  \"cniVersion\": \"0.3.1\",\n" ++ "  \"plugins\": [\n"
    ++ "    {\n" ++ "      \"type\": \"flannel\",\n" ++ "      \"delegate\": {\n"
    ++ "        \"hairpinMode\": true,\n" ++ "        \"isDefaultGateway\": true\n" ++ "      }\n"
    ++ "    },\n" ++ "    {\n" ++ "      \"type\": \"portmap\",\n" ++ "      \"capabilities\": {\n"
    ++ "        \"portMappings\": true\n" ++ "      }\n" ++ "    }\n" ++ "  ]\n" ++ "}"

unfoldable pub net_conf : NetworkingSpec → String
net_conf networking =
    "{\n" ++ "  \"Network\": \"" ++ networking.pod_cidr ++ "\",\n"
    ++ "  \"EnableNFTables\": false,\n" ++ "  \"Backend\": {\n" ++ "    \"Type\": \""
    ++ backend_type ++ "\"\n" ++ "  }\n" ++ "}"

unfoldable pub build_flannel_config_map : NetworkingSpec → ConfigMap
build_flannel_config_map networking =
    ConfigMap.new_config_map
    ▷ ConfigMap.with_name config_map_name
    ▷ ConfigMap.with_namespace namespace_name
    ▷ ConfigMap.with_labels def_flannel_labels
    ▷ ConfigMap.with_annotations part_of
    ▷ ConfigMap.put "cni-conf.json" cni_conf
    ▷ ConfigMap.put "net-conf.json" (net_conf networking)
    ▷ ConfigMap.build

abbrev pub affinity : List NodeRequirement
affinity = record { key = "kubernetes.io/os"; operator = "In"; values = "linux" ∷ [] } ∷ []

abbrev pub toleration : Toleration
toleration = record { operator = "Exists"; effect = "NoSchedule" }

abbrev mount : String → String → VolumeMount
mount name path = record { name = name; read_only = false; mount_path = path }

unfoldable pub init_containers : List Container
init_containers =
    record (new_container "install-cni-plugin" cni_plugin_image) {
      command = "cp" ∷ [];
      args = "-f" ∷ "/flannel" ∷ "/opt/cni/bin/flannel" ∷ [];
      volume_mounts = mount "cni-plugin" "/opt/cni/bin" ∷ [];
    }
    ∷ record (new_container "install-cni" flannel_image) {
      command = "cp" ∷ [];
      args = "-f" ∷ "/etc/kube-flannel/cni-conf.json" ∷ "/etc/cni/net.d/10-flannel.conflist" ∷ [];
      volume_mounts = mount "cni" "/etc/cni/net.d" ∷ mount "flannel-cfg" "/etc/kube-flannel/" ∷ [];
    }
    ∷ []

unfoldable pub container : Container
container = record (new_container "kube-flannel" flannel_image) {
  command = "/opt/bin/flanneld" ∷ [];
  args = "--ip-masq" ∷ "--kube-subnet-mgr" ∷ [];
  requests = ("cpu", "100m") ∷ ("memory", "50Mi") ∷ [];
  security_context =
      some (record { privileged = some false; added_capabilities = "NET_ADMIN" ∷ "NET_RAW" ∷ [] });
  env =
      ("POD_NAME", env_field "" "metadata.name")
      ∷ ("POD_NAMESPACE", env_field "" "metadata.namespace")
      ∷ ("EVENT_QUEUE_DEPTH", env_value "5000")
      ∷ ("CONT_WHEN_CACHE_NOT_READY", env_value "false")
      ∷ [];
}

abbrev pub volume_mounts : List VolumeMount
volume_mounts =
    mount "run" "/run/flannel"
    ∷ mount "flannel-cfg" "/etc/kube-flannel/"
    ∷ mount "xtables-lock" "/run/xtables.lock"
    ∷ []

abbrev pub volumes : List Volume
volumes =
    record { name = "run"; source = host_path "/run/flannel" "" }
    ∷ record { name = "cni-plugin"; source = host_path "/opt/cni/bin" "" }
    ∷ record { name = "cni"; source = host_path "/etc/cni/net.d" "" }
    ∷ record { name = "flannel-cfg"; source = config_map_source config_map_name [] }
    ∷ record { name = "xtables-lock"; source = host_path "/run/xtables.lock" "FileOrCreate" }
    ∷ []

unfoldable pub build_flannel_daemon_set : DaemonSet
build_flannel_daemon_set =
    DaemonSet.new_daemon_set
    ▷ DaemonSet.with_name daemon_set_name
    ▷ DaemonSet.with_namespace namespace_name
    ▷ DaemonSet.with_labels def_flannel_labels
    ▷ DaemonSet.with_annotations part_of
    ▷ DaemonSet.with_selector def_flannel_labels
    ▷ DaemonSet.with_pod_labels (some def_flannel_labels)
    ▷ DaemonSet.with_service_account service_account_name
    ▷ DaemonSet.with_host_network
    ▷ DaemonSet.with_priority_class "system-node-critical"
    ▷ DaemonSet.with_affinity affinity
    ▷ DaemonSet.with_tolerations (toleration ∷ [])
    ▷ DaemonSet.with_init_containers init_containers
    ▷ DaemonSet.with_container container
    ▷ DaemonSet.add_volumes volumes
    ▷ DaemonSet.add_volume_mounts container.name volume_mounts
    ▷ DaemonSet.build

unfoldable pub build_flannel : ClusterContext → Option (List Object)
build_flannel cc = elim cc.spec.kubernetes.networking [
  | none ↦ none
  | some networking ↦ some (
      namespace_object build_flannel_namespace
      ∷ account_object build_flannel_service_account
      ∷ cluster_role_object build_flannel_cluster_role
      ∷ cluster_role_binding_object build_flannel_cluster_role_binding
      ∷ config_map_object (build_flannel_config_map networking)
      ∷ daemon_set_object build_flannel_daemon_set
      ∷ [])
]
