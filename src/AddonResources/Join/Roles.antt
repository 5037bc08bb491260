-- ===== src/AddonResources/Join/Roles.antt =====
-- pkg/resources/addons/rbac.go: the roles by which a joining node reads its configuration, and their
-- bindings. These objects are written out, without a template and without the annotation.
use controlplane_operator.Base.{String, [], ◌∷◌}
use controlplane_operator.Api.{ObjectMeta}
use controlplane_operator.Builders.Meta.{empty_meta}
use controlplane_operator.Builders.Rbac.{PolicyRule, RoleRef, Subject}
use controlplane_operator.Builders.Rbac.ClusterRole.{ClusterRole}
use controlplane_operator.Builders.Rbac.ClusterRoleBinding.{ClusterRoleBinding}
use controlplane_operator.Builders.Rbac.Role.{Role}
use controlplane_operator.Builders.Rbac.RoleBinding.{RoleBinding}
use controlplane_operator.AddonResources.Objects.{kube_system_namespace, rbac_api_group}
use controlplane_operator.AddonResources.Join.Token.{default_node_bootstrapper_group}

abbrev pub kube_public_namespace : String
kube_public_namespace = "kube-public"

abbrev pub role_bootstrap_signer_cluster_info_name : String
role_bootstrap_signer_cluster_info_name = "kubeadm:bootstrap-signer-clusterinfo"

abbrev pub role_kubeadm_kubelet_config : String
role_kubeadm_kubelet_config = "kubeadm:kubelet-config"

abbrev pub role_kubeadm_nodes_kubeadm_config : String
role_kubeadm_nodes_kubeadm_config = "kubeadm:nodes-kubeadm-config"

abbrev pub cm_kubelet_config_base : String
cm_kubelet_config_base = "kubelet-config"

abbrev pub cm_kubeadm_config : String
cm_kubeadm_config = "kubeadm-config"

-- bootstrapapi.ConfigMapClusterInfo
abbrev pub config_map_cluster_info : String
config_map_cluster_info = "cluster-info"

abbrev meta : String → String → ObjectMeta
meta name namespace = record empty_meta { name = name; namespace = namespace }

-- Reading one ConfigMap.
abbrev get_config_map : String → PolicyRule
get_config_map name = record {
  api_groups = "" ∷ [];
  resources = "configmaps" ∷ [];
  resource_names = name ∷ [];
  verbs = "get" ∷ [];
}

abbrev role_ref : String → String → RoleRef
role_ref kind name = record { api_group = rbac_api_group; kind = kind; name = name }

abbrev subject : String → String → Subject
subject kind name = record { api_group = rbac_api_group; kind = kind; name = name; namespace = "" }

unfoldable pub cluster_info_role : Role
cluster_info_role = record {
  meta = meta role_bootstrap_signer_cluster_info_name kube_public_namespace;
  rules = get_config_map config_map_cluster_info ∷ [];
}

unfoldable pub cluster_info_role_binding_anon : RoleBinding
cluster_info_role_binding_anon = record {
  meta = meta role_bootstrap_signer_cluster_info_name kube_public_namespace;
  role_ref = role_ref "Role" role_bootstrap_signer_cluster_info_name;
  subjects = subject "User" "system:anonymous" ∷ [];
}

unfoldable pub kubeadm_kubelet_config_role : Role
kubeadm_kubelet_config_role = record {
  meta = meta role_kubeadm_kubelet_config kube_system_namespace;
  rules = get_config_map cm_kubelet_config_base ∷ [];
}

unfoldable pub kubeadm_nodes_kubeadm_config_role : Role
kubeadm_nodes_kubeadm_config_role = record {
  meta = meta role_kubeadm_nodes_kubeadm_config kube_system_namespace;
  rules = get_config_map cm_kubeadm_config ∷ [];
}

unfoldable pub kubeadm_kubelet_config_role_binding : RoleBinding
kubeadm_kubelet_config_role_binding = record {
  meta = meta role_kubeadm_kubelet_config kube_system_namespace;
  role_ref = role_ref "Role" role_kubeadm_kubelet_config;
  subjects = subject "Group" "system:nodes" ∷ subject "Group" default_node_bootstrapper_group ∷ [];
}

unfoldable pub kubeadm_get_nodes_cluster_role : ClusterRole
kubeadm_get_nodes_cluster_role = record {
  meta = meta "kubeadm:get-nodes" "";
  rules =
      record {
        api_groups = "" ∷ [];
        resources = "nodes" ∷ [];
        resource_names = [];
        verbs = "get" ∷ [];
      }
      ∷ [];
}

unfoldable pub kubeadm_get_nodes_cluster_role_binding : ClusterRoleBinding
kubeadm_get_nodes_cluster_role_binding = record {
  meta = meta "kubeadm:get-nodes" "";
  role_ref = role_ref "ClusterRole" "kubeadm:get-nodes";
  subjects = subject "Group" default_node_bootstrapper_group ∷ [];
}

unfoldable pub kubeadm_nodes_kubeadm_config_role_binding : RoleBinding
kubeadm_nodes_kubeadm_config_role_binding = record {
  meta = meta role_kubeadm_nodes_kubeadm_config kube_system_namespace;
  role_ref = role_ref "Role" role_kubeadm_nodes_kubeadm_config;
  subjects = subject "Group" default_node_bootstrapper_group ∷ subject "Group" "system:nodes" ∷ [];
}
