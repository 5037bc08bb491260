-- ===== src/AddonResources/Csi.antt =====
-- pkg/resources/addons/csi.go: the local path provisioner.
use Prim.Native.String.{◌++◌}
use controlplane_operator.Base.{String, false, List, [], ◌∷◌}
use controlplane_operator.Cluster.{VolumeMount}
use controlplane_operator.Builders.Pipe.{◌▷◌}
use controlplane_operator.Builders.Pod.{
  Container, Volume, config_map_source, env_field, env_value, new_container,
}
use controlplane_operator.Builders.Rbac.{PolicyRule, Subject}
use controlplane_operator.Builders.ConfigMap
use controlplane_operator.Builders.ConfigMap.{ConfigMap}
use controlplane_operator.Builders.Deployment
use controlplane_operator.Builders.Deployment.{Deployment}
use controlplane_operator.Builders.Namespace
use controlplane_operator.Builders.Namespace.{Namespace}
use controlplane_operator.Builders.Rbac.ClusterRole
use controlplane_operator.Builders.Rbac.ClusterRole.{ClusterRole}
use controlplane_operator.Builders.Rbac.ClusterRoleBinding
use controlplane_operator.Builders.Rbac.ClusterRoleBinding.{ClusterRoleBinding}
use controlplane_operator.Builders.Rbac.Role
use controlplane_operator.Builders.Rbac.Role.{Role}
use controlplane_operator.Builders.Rbac.RoleBinding
use controlplane_operator.Builders.Rbac.RoleBinding.{RoleBinding}
use controlplane_operator.Builders.ServiceAccount
use controlplane_operator.Builders.ServiceAccount.{ServiceAccount}
use controlplane_operator.Builders.StorageClass
use controlplane_operator.Builders.StorageClass.{StorageClass}
use controlplane_operator.AddonResources.Objects.{
  Object, account_object, cluster_role_binding_object, cluster_role_object, config_map_object,
  core_api_group, deployment_object, kind_cluster_role, kind_role, kind_service_account,
  namespace_object, part_of, rbac_api_group, role_binding_object, role_object, storage_api_group,
  storage_class_object, text_of,
}

abbrev pub namespace_name : String
namespace_name = "local-path-storage"

abbrev pub service_account_name : String
service_account_name = "local-path-provisioner-service-account"

abbrev pub role_name : String
role_name = "local-path-provisioner-role"

abbrev pub cluster_role_name : String
cluster_role_name = "local-path-provisioner-role"

abbrev pub role_binding_name : String
role_binding_name = "local-path-provisioner-bind"

abbrev pub deployment_name : String
deployment_name = "local-path-provisioner"

abbrev pub default_storage_class_annotation : String
default_storage_class_annotation = "storageclass.kubernetes.io/is-default-class"

abbrev pub storage_class_name : String
storage_class_name = "local-path"

abbrev pub provisioner_name : String
provisioner_name = "rancher.io/local-path"

abbrev pub reclaim_policy : String
reclaim_policy = "Delete"

abbrev pub volume_binding_mode : String
volume_binding_mode = "WaitForFirstConsumer"

abbrev pub config_map_name : String
config_map_name = "local-path-config"

abbrev pub provisioner_image : String
provisioner_image = "rancher/local-path-provisioner:v0.0.32"

abbrev pub helper_pod_image : String
helper_pod_image = "busybox"

abbrev pub csi_labels : List (String × String)
csi_labels = ("app", "local-path-provisioner") ∷ []

unfoldable pub build_csi_namespace : Namespace
build_csi_namespace =
    Namespace.new_namespace
    ▷ Namespace.with_name namespace_name
    ▷ Namespace.with_annotations part_of
    ▷ Namespace.build

unfoldable pub build_csi_service_account : ServiceAccount
build_csi_service_account =
    ServiceAccount.new_service_account
    ▷ ServiceAccount.with_name service_account_name
    ▷ ServiceAccount.with_namespace namespace_name
    ▷ ServiceAccount.with_annotations part_of
    ▷ ServiceAccount.build

abbrev rule : String → List String → List String → PolicyRule
rule group resources verbs = record {
  api_groups = group ∷ [];
  resources = resources;
  resource_names = [];
  verbs = verbs;
}

abbrev all_verbs : List String
all_verbs = "get" ∷ "list" ∷ "watch" ∷ "create" ∷ "patch" ∷ "update" ∷ "delete" ∷ []

unfoldable pub build_csi_role : Role
build_csi_role =
    Role.new_role
    ▷ Role.with_name role_name
    ▷ Role.with_namespace namespace_name
    ▷ Role.with_annotations part_of
    ▷ Role.with_rules (rule core_api_group ("pods" ∷ []) all_verbs ∷ [])
    ▷ Role.build

unfoldable pub build_csi_cluster_role : ClusterRole
build_csi_cluster_role =
    ClusterRole.new_cluster_role
    ▷ ClusterRole.with_name cluster_role_name
    ▷ ClusterRole.with_annotations part_of
    ▷ ClusterRole.with_rules (
        rule core_api_group
          ("nodes" ∷ "persistentvolumeclaims" ∷ "configmaps" ∷ "pods" ∷ "pods/logs" ∷ [])
          ("get" ∷ "list" ∷ "watch" ∷ [])
        ∷ rule core_api_group ("persistentvolumes" ∷ []) all_verbs
        ∷ rule core_api_group ("events" ∷ []) ("create" ∷ "patch" ∷ [])
        ∷ rule storage_api_group ("storageclasses" ∷ []) ("get" ∷ "list" ∷ "watch" ∷ [])
        ∷ [])
    ▷ ClusterRole.build

-- Both bindings name the one service account.
abbrev subject : Subject
subject = record {
  api_group = "";
  kind = kind_service_account;
  name = service_account_name;
  namespace = namespace_name;
}

unfoldable pub build_csi_role_binding : RoleBinding
build_csi_role_binding =
    RoleBinding.new_role_binding
    ▷ RoleBinding.with_name role_binding_name
    ▷ RoleBinding.with_namespace namespace_name
    ▷ RoleBinding.with_annotations part_of
    ▷ RoleBinding.with_refs
        (record { api_group = rbac_api_group; kind = kind_role; name = role_name }) (subject ∷ [])
    ▷ RoleBinding.build

-- The binding has the name of the role.
unfoldable pub build_csi_cluster_role_binding : ClusterRoleBinding
build_csi_cluster_role_binding =
    ClusterRoleBinding.new_cluster_role_binding
    ▷ ClusterRoleBinding.with_name cluster_role_name
    ▷ ClusterRoleBinding.with_annotations part_of
    ▷ ClusterRoleBinding.with_refs
        (record { api_group = rbac_api_group; kind = kind_cluster_role; name = cluster_role_name })
        (subject ∷ [])
    ▷ ClusterRoleBinding.build

unfoldable pub build_csi_storage_class : StorageClass
build_csi_storage_class =
    StorageClass.new_storage_class
    ▷ StorageClass.with_annotations ((default_storage_class_annotation, "true") ∷ [])
    ▷ StorageClass.with_annotations part_of
    ▷ StorageClass.with_name storage_class_name
    ▷ StorageClass.with_provisioner provisioner_name
    ▷ StorageClass.with_policy reclaim_policy
    ▷ StorageClass.with_binding_mode volume_binding_mode
    ▷ StorageClass.build

abbrev pub config_json : String
config_json =
    "{\n" ++ "  \"nodePathMap\":[\n" ++ "    {\n"
    ++ "      \"node\":\"DEFAULT_PATH_FOR_NON_LISTED_NODES\",\n"
    ++ "      \"paths\":[\"/opt/local-path-provisioner\"]\n" ++ "    }\n" ++ "  ]\n" ++ "}"

abbrev pub setup : String
setup = text_of ("#!/bin/sh" ∷ "set -eu" ∷ "mkdir -m 0777 -p \"$VOL_DIR\"" ∷ [])

abbrev pub teardown : String
teardown = text_of ("#!/bin/sh" ∷ "set -eu" ∷ "rm -rf \"$VOL_DIR\"" ∷ [])

abbrev pub helper_pod_yaml : String
helper_pod_yaml = text_of (
    "apiVersion: v1"
    ∷ "kind: Pod"
    ∷ "metadata:"
    ∷ "  name: helper-pod"
    ∷ "spec:"
    ∷ "  priorityClassName: system-node-critical"
    ∷ "  tolerations:"
    ∷ "    - key: node.kubernetes.io/disk-pressure"
    ∷ "      operator: Exists"
    ∷ "      effect: NoSchedule"
    ∷ "  containers:"
    ∷ "    - name: helper-pod"
    ∷ ("      image: " ++ helper_pod_image)
    ∷ "      imagePullPolicy: IfNotPresent"
    ∷ [])

unfoldable pub build_csi_config_map : ConfigMap
build_csi_config_map =
    ConfigMap.new_config_map
    ▷ ConfigMap.with_name config_map_name
    ▷ ConfigMap.with_namespace namespace_name
    ▷ ConfigMap.with_annotations part_of
    ▷ ConfigMap.put "config.json" config_json
    ▷ ConfigMap.put "setup" setup
    ▷ ConfigMap.put "teardown" teardown
    ▷ ConfigMap.put "helperPod.yaml" helper_pod_yaml
    ▷ ConfigMap.build

unfoldable pub container : Container
container = record (new_container "local-path-provisioner" provisioner_image) {
  image_pull_policy = "IfNotPresent";
  command =
      "local-path-provisioner" ∷ "--debug" ∷ "start" ∷ "--config" ∷ "/etc/config/config.json" ∷ [];
  env =
      ("POD_NAMESPACE", env_field "" "metadata.namespace")
      ∷ ("CONFIG_MOUNT_PATH", env_value "/etc/config/")
      ∷ [];
}

abbrev pub volume : Volume
volume = record { name = "config-volume"; source = config_map_source config_map_name [] }

abbrev pub volume_mount : VolumeMount
volume_mount = record { name = "config-volume"; read_only = false; mount_path = "/etc/config/" }

unfoldable pub build_csi_deployment : Deployment
build_csi_deployment =
    Deployment.new_deployment
    ▷ Deployment.with_name deployment_name
    ▷ Deployment.with_namespace namespace_name
    ▷ Deployment.with_labels csi_labels
    ▷ Deployment.with_annotations part_of
    ▷ Deployment.with_selector csi_labels
    ▷ Deployment.with_service_account service_account_name
    ▷ Deployment.with_replicas 1
    ▷ Deployment.with_container container
    ▷ Deployment.add_volumes (volume ∷ [])
    ▷ Deployment.add_volume_mounts container.name (volume_mount ∷ [])
    ▷ Deployment.build

unfoldable pub build_csi : List Object
build_csi =
    namespace_object build_csi_namespace
    ∷ account_object build_csi_service_account
    ∷ cluster_role_object build_csi_cluster_role
    ∷ cluster_role_binding_object build_csi_cluster_role_binding
    ∷ role_object build_csi_role
    ∷ role_binding_object build_csi_role_binding
    ∷ config_map_object build_csi_config_map
    ∷ storage_class_object build_csi_storage_class
    ∷ deployment_object build_csi_deployment
    ∷ []
