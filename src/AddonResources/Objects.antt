-- ===== src/AddonResources/Objects.antt =====
-- pkg/resources/addons/const.go and the constants of rbac.go: the kinds of object that are built, and
-- the names that the add-ons share.
use Prim.Native.String
use controlplane_operator.Base.{String, List, [], ◌∷◌}
use controlplane_operator.Api.{ObjectMeta}
use controlplane_operator.Api.Messages.{annotation_key_part_of, kind_managed_control_plane}
use controlplane_operator.Builders.ConfigMap.{ConfigMap}
use controlplane_operator.Builders.DaemonSet.{DaemonSet}
use controlplane_operator.Builders.Deployment.{Deployment}
use controlplane_operator.Builders.Namespace.{Namespace}
use controlplane_operator.Builders.Rbac.ClusterRole.{ClusterRole}
use controlplane_operator.Builders.Rbac.ClusterRoleBinding.{ClusterRoleBinding}
use controlplane_operator.Builders.Rbac.Role.{Role}
use controlplane_operator.Builders.Rbac.RoleBinding.{RoleBinding}
use controlplane_operator.Builders.Secret.{Secret}
use controlplane_operator.Builders.Service.{Service}
use controlplane_operator.Builders.ServiceAccount.{ServiceAccount}
use controlplane_operator.Builders.StorageClass.{StorageClass}

-- client.Object
pub data Object : Type 0 where
  namespace_object : Namespace → Object
  account_object : ServiceAccount → Object
  cluster_role_object : ClusterRole → Object
  cluster_role_binding_object : ClusterRoleBinding → Object
  role_object : Role → Object
  role_binding_object : RoleBinding → Object
  config_map_object : ConfigMap → Object
  secret_object : Secret → Object
  service_object : Service → Object
  storage_class_object : StorageClass → Object
  daemon_set_object : DaemonSet → Object
  deployment_object : Deployment → Object

abbrev pub kind_of : Object → String
kind_of (namespace_object o) = "Namespace"
kind_of (account_object o) = "ServiceAccount"
kind_of (cluster_role_object o) = "ClusterRole"
kind_of (cluster_role_binding_object o) = "ClusterRoleBinding"
kind_of (role_object o) = "Role"
kind_of (role_binding_object o) = "RoleBinding"
kind_of (config_map_object o) = "ConfigMap"
kind_of (secret_object o) = "Secret"
kind_of (service_object o) = "Service"
kind_of (storage_class_object o) = "StorageClass"
kind_of (daemon_set_object o) = "DaemonSet"
kind_of (deployment_object o) = "Deployment"

abbrev pub meta_of : Object → ObjectMeta
meta_of (namespace_object o) = o.meta
meta_of (account_object o) = o.meta
meta_of (cluster_role_object o) = o.meta
meta_of (cluster_role_binding_object o) = o.meta
meta_of (role_object o) = o.meta
meta_of (role_binding_object o) = o.meta
meta_of (config_map_object o) = o.meta
meta_of (secret_object o) = o.meta
meta_of (service_object o) = o.meta
meta_of (storage_class_object o) = o.meta
meta_of (daemon_set_object o) = o.meta
meta_of (deployment_object o) = o.meta

-- A text of several lines, each of them ended.
abbrev pub text_of : List String → String
text_of [] = ""
text_of (line ∷ rest) = String.◌++◌ line (String.◌++◌ "\n" (text_of rest))

abbrev pub part_of : List (String × String)
part_of = (annotation_key_part_of, kind_managed_control_plane) ∷ []

abbrev pub key_ca_crt : String
key_ca_crt = "ca.crt"

abbrev pub key_tls_crt : String
key_tls_crt = "tls.crt"

abbrev pub key_tls_key : String
key_tls_key = "tls.key"

abbrev pub kube_system_namespace : String
kube_system_namespace = "kube-system"

abbrev pub core_api_group : String
core_api_group = ""

-- rbacv1.GroupName
abbrev pub rbac_api_group : String
rbac_api_group = "rbac.authorization.k8s.io"

-- storagev1.GroupName
abbrev pub storage_api_group : String
storage_api_group = "storage.k8s.io"

abbrev pub discovery_api_group : String
discovery_api_group = "discovery.k8s.io"

abbrev pub kind_cluster_role : String
kind_cluster_role = "ClusterRole"

abbrev pub kind_role : String
kind_role = "Role"

-- rbacv1.ServiceAccountKind, rbacv1.GroupKind and rbacv1.UserKind
abbrev pub kind_service_account : String
kind_service_account = "ServiceAccount"

abbrev pub kind_group : String
kind_group = "Group"

abbrev pub kind_user : String
kind_user = "User"
