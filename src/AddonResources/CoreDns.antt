-- ===== src/AddonResources/CoreDns.antt =====
-- pkg/resources/addons/coredns.go. The address of the Service is the tenth of the service network; the
-- error of utils.IPAtOffset is dropped, and the address is nil then. Its panic, and the dereference of a
-- networking section that is not there, are none.
use Prim.Native.String.{◌++◌}
use controlplane_operator.Base.{ℕ, String, Option, none, some, false, List, [], ◌∷◌}
use controlplane_operator.Api.{NetworkingSpec}
use controlplane_operator.Net.{Ip, Net}
use controlplane_operator.Utils.Text.{
  AtOffset, at, invalid_cidr, only_ipv4, out_of_range, index_panic, ip_at_offset,
}
use controlplane_operator.Cluster.{ClusterContext, VolumeMount}
use controlplane_operator.Builders.Pipe.{◌▷◌}
use controlplane_operator.Builders.Pod.{Container, Volume, config_map_source, new_container}
use controlplane_operator.Builders.Rbac.{PolicyRule, Subject}
use controlplane_operator.Builders.ConfigMap
use controlplane_operator.Builders.ConfigMap.{ConfigMap}
use controlplane_operator.Builders.Deployment
use controlplane_operator.Builders.Deployment.{Deployment}
use controlplane_operator.Builders.Rbac.ClusterRole
use controlplane_operator.Builders.Rbac.ClusterRole.{ClusterRole}
use controlplane_operator.Builders.Rbac.ClusterRoleBinding
use controlplane_operator.Builders.Rbac.ClusterRoleBinding.{ClusterRoleBinding}
use controlplane_operator.Builders.Rbac.Role
use controlplane_operator.Builders.Rbac.Role.{Role}
use controlplane_operator.Builders.Rbac.RoleBinding
use controlplane_operator.Builders.Rbac.RoleBinding.{RoleBinding}
use controlplane_operator.Builders.Service
use controlplane_operator.Builders.Service.{Service, ServicePort}
use controlplane_operator.Builders.ServiceAccount
use controlplane_operator.Builders.ServiceAccount.{ServiceAccount}
use controlplane_operator.AddonResources.Objects.{
  Object, account_object, cluster_role_binding_object, cluster_role_object, config_map_object,
  core_api_group, deployment_object, discovery_api_group, kind_cluster_role, kind_role,
  kind_service_account, part_of, rbac_api_group, role_binding_object, role_object, service_object,
}

abbrev pub namespace_name : String
namespace_name = "kube-system"

abbrev pub service_account_name : String
service_account_name = "coredns"

abbrev pub config_map_name : String
config_map_name = "coredns-config"

abbrev pub deployment_name : String
deployment_name = "coredns"

abbrev pub service_name : String
service_name = "kube-dns"

abbrev pub cluster_role_name : String
cluster_role_name = "system:coredns"

abbrev pub cluster_role_binding_name : String
cluster_role_binding_name = "system:coredns"

abbrev pub role_name : String
role_name = "coredns"

abbrev pub role_binding_name : String
role_binding_name = "coredns"

abbrev pub image : String
image = "registry.k8s.io/coredns/coredns:v1.11.3"

abbrev pub replicas : ℕ
replicas = 2

abbrev pub pod_labels : List (String × String)
pod_labels = ("k8s-app", "coredns") ∷ []

abbrev pub service_labels : List (String × String)
service_labels = ("k8s-app", "kube-dns") ∷ []

unfoldable pub build_core_dns_service_account : ServiceAccount
build_core_dns_service_account =
    ServiceAccount.new_service_account
    ▷ ServiceAccount.with_name service_account_name
    ▷ ServiceAccount.with_namespace namespace_name
    ▷ ServiceAccount.with_labels pod_labels
    ▷ ServiceAccount.with_annotations part_of
    ▷ ServiceAccount.build

-- Both bindings name the one service account.
abbrev subject : Subject
subject = record {
  api_group = "";
  kind = kind_service_account;
  name = service_account_name;
  namespace = namespace_name;
}

unfoldable pub build_core_dns_cluster_role_binding : ClusterRoleBinding
build_core_dns_cluster_role_binding =
    ClusterRoleBinding.new_cluster_role_binding
    ▷ ClusterRoleBinding.with_name cluster_role_binding_name
    ▷ ClusterRoleBinding.with_annotations part_of
    ▷ ClusterRoleBinding.with_refs
        (record { api_group = rbac_api_group; kind = kind_cluster_role; name = cluster_role_name })
        (subject ∷ [])
    ▷ ClusterRoleBinding.build

abbrev rule : String → List String → List String → PolicyRule
rule group resources verbs = record {
  api_groups = group ∷ [];
  resources = resources;
  resource_names = [];
  verbs = verbs;
}

unfoldable pub build_core_dns_cluster_role : ClusterRole
build_core_dns_cluster_role =
    ClusterRole.new_cluster_role
    ▷ ClusterRole.with_name cluster_role_name
    ▷ ClusterRole.with_annotations part_of
    ▷ ClusterRole.with_rules (
        rule core_api_group ("endpoints" ∷ "services" ∷ "pods" ∷ "namespaces" ∷ [])
          ("list" ∷ "watch" ∷ [])
        ∷ rule discovery_api_group ("endpointslices" ∷ []) ("list" ∷ "watch" ∷ [])
        ∷ rule core_api_group ("nodes" ∷ []) ("get" ∷ "list" ∷ "watch" ∷ [])
        ∷ [])
    ▷ ClusterRole.build

unfoldable pub build_core_dns_role : Role
build_core_dns_role =
    Role.new_role
    ▷ Role.with_name role_name
    ▷ Role.with_namespace namespace_name
    ▷ Role.with_annotations part_of
    ▷ Role.with_rules (
        record {
          api_groups = core_api_group ∷ [];
          resources = "configmaps" ∷ [];
          resource_names = config_map_name ∷ [];
          verbs = "get" ∷ "list" ∷ "watch" ∷ [];
        }
        ∷ [])
    ▷ Role.build

unfoldable pub build_core_dns_role_binding : RoleBinding
build_core_dns_role_binding =
    RoleBinding.new_role_binding
    ▷ RoleBinding.with_name role_binding_name
    ▷ RoleBinding.with_namespace namespace_name
    ▷ RoleBinding.with_annotations part_of
    ▷ RoleBinding.with_refs
        (record { api_group = rbac_api_group; kind = kind_role; name = role_name }) (subject ∷ [])
    ▷ RoleBinding.build

abbrev pub corefile : String
corefile =
    ".:53 {\n" ++ "        errors\n" ++ "        health\n"
    ++ "        kubernetes cluster.local in-addr.arpa ip6.arpa {\n" ++ "            pods insecure\n"
    ++ "            fallthrough in-addr.arpa ip6.arpa\n" ++ "        }\n"
    ++ "        prometheus :9153\n" ++ "        forward . 8.8.8.8 1.1.1.1\n" ++ "        cache 30\n"
    ++ "        loop\n" ++ "        reload\n" ++ "        loadbalance\n" ++ "    }"

unfoldable pub build_core_dns_config_map : ConfigMap
build_core_dns_config_map =
    ConfigMap.new_config_map
    ▷ ConfigMap.with_name config_map_name
    ▷ ConfigMap.with_namespace namespace_name
    ▷ ConfigMap.with_annotations part_of
    ▷ ConfigMap.put "Corefile" corefile
    ▷ ConfigMap.build

-- ip, _ := utils.IPAtOffset(…): the address or nil, where it returns.
unfoldable pub ip_or_nil : AtOffset → Option (Option Ip)
ip_or_nil (at ip) = some (some ip)
ip_or_nil invalid_cidr = some none
ip_or_nil only_ipv4 = some none
ip_or_nil out_of_range = some none
ip_or_nil index_panic = none

abbrev pub ports : List ServicePort
ports =
    record { name = "dns"; port = 53; target_port = 53; protocol = "UDP" }
    ∷ record { name = "dns-tcp"; port = 53; target_port = 53; protocol = "TCP" }
    ∷ []

unfoldable pub core_dns_service : Net → Option Ip → Service
core_dns_service net ip =
    Service.new_service
    ▷ Service.with_name service_name
    ▷ Service.with_namespace namespace_name
    ▷ Service.with_labels service_labels
    ▷ Service.with_annotations part_of
    ▷ Service.with_selector pod_labels
    ▷ Service.with_type "ClusterIP"
    ▷ Service.with_cluster_ip net ip
    ▷ Service.add_ports ports
    ▷ Service.build

unfoldable pub build_core_dns_service : Net → NetworkingSpec → Option Service
build_core_dns_service net networking =
    elim (ip_or_nil (ip_at_offset net networking.service_cidr 10)) [
      | none ↦ none
      | some ip ↦ some (core_dns_service net ip)
    ]

unfoldable pub container : Container
container = record (new_container "coredns" image) {
  image_pull_policy = "IfNotPresent";
  args = "-conf" ∷ "/etc/coredns/Corefile" ∷ [];
  ports =
      record { name = ""; container_port = 53; host_port = 0; protocol = "UDP" }
      ∷ record { name = ""; container_port = 53; host_port = 0; protocol = "TCP" }
      ∷ [];
}

abbrev pub volume : Volume
volume = record { name = "config-volume"; source = config_map_source config_map_name [] }

abbrev pub volume_mount : VolumeMount
volume_mount = record { name = "config-volume"; read_only = false; mount_path = "/etc/coredns" }

unfoldable pub build_core_dns_deployment : Deployment
build_core_dns_deployment =
    Deployment.new_deployment
    ▷ Deployment.with_name deployment_name
    ▷ Deployment.with_namespace namespace_name
    ▷ Deployment.with_labels pod_labels
    ▷ Deployment.with_annotations part_of
    ▷ Deployment.with_service_account service_account_name
    ▷ Deployment.with_selector pod_labels
    ▷ Deployment.with_replicas replicas
    ▷ Deployment.with_container container
    ▷ Deployment.add_volumes (volume ∷ [])
    ▷ Deployment.add_volume_mounts container.name (volume_mount ∷ [])
    ▷ Deployment.build

-- With the Service that was built.
unfoldable pub core_dns_objects : Service → List Object
core_dns_objects service =
    account_object build_core_dns_service_account
    ∷ cluster_role_object build_core_dns_cluster_role
    ∷ cluster_role_binding_object build_core_dns_cluster_role_binding
    ∷ role_object build_core_dns_role
    ∷ role_binding_object build_core_dns_role_binding
    ∷ config_map_object build_core_dns_config_map
    ∷ service_object service
    ∷ deployment_object build_core_dns_deployment
    ∷ []

unfoldable pub build_core_dns : Net → ClusterContext → Option (List Object)
build_core_dns net cc = elim cc.spec.kubernetes.networking [
  | none ↦ none
  | some networking ↦ elim (build_core_dns_service net networking) [
    | none ↦ none
    | some service ↦ some (core_dns_objects service)
  ]
]
