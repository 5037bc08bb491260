-- ===== src/AddonResources/Join.antt =====
-- pkg/resources/addons/rbac.go, `kubeletJoinBuilder`: what lets nodes join a managed cluster.
pub mod Token
pub mod Bindings
pub mod Roles
pub mod Configs
pub mod References
pub mod Dns
use controlplane_operator.Base.{Option, none, some, List, [], ◌∷◌}
use controlplane_operator.Net.{Net}
use controlplane_operator.Utils.Kubeconfig.{Bytes}
use controlplane_operator.Cluster.{ClusterContext}
use controlplane_operator.Controller.Addons.Token.{BootstrapToken}
use controlplane_operator.AddonResources.Objects.{
  Object, cluster_role_binding_object, cluster_role_object, config_map_object, role_binding_object,
  role_object, secret_object,
}
use controlplane_operator.AddonResources.Join.Token.{bootstrap_token_secret}
use controlplane_operator.AddonResources.Join.Bindings.{
  kubelet_config, node_autoapprove_bootstrap, node_autoapprove_rotation, node_bootstrapper,
}
use controlplane_operator.AddonResources.Join.Roles.{
  cluster_info_role, cluster_info_role_binding_anon, kubeadm_get_nodes_cluster_role,
  kubeadm_get_nodes_cluster_role_binding, kubeadm_kubelet_config_role,
  kubeadm_kubelet_config_role_binding, kubeadm_nodes_kubeadm_config_role,
  kubeadm_nodes_kubeadm_config_role_binding,
}
use controlplane_operator.AddonResources.Join.Configs.{
  Encoders, KubeletConfiguration, cluster_info, kubeadm_config_config_map,
  kubelet_config_unversioned, kubelet_config_versioned, versioned_configuration,
  unversioned_configuration,
}

-- With the kubelets' configurations of the versioned and of the other ConfigMap.
unfoldable pub objects_with :
    Encoders
    → ClusterContext
    → BootstrapToken
    → Bytes
    → KubeletConfiguration
    → KubeletConfiguration
    → List Object
objects_with enc cc tok ca_pem kc unversioned =
    secret_object (bootstrap_token_secret tok)
    ∷ cluster_role_binding_object node_autoapprove_rotation
    ∷ cluster_role_binding_object node_autoapprove_bootstrap
    ∷ cluster_role_binding_object node_bootstrapper
    ∷ config_map_object (cluster_info enc cc ca_pem)
    ∷ role_object cluster_info_role
    ∷ role_binding_object cluster_info_role_binding_anon
    ∷ config_map_object (kubelet_config_versioned enc cc kc)
    ∷ config_map_object (kubelet_config_unversioned enc unversioned)
    ∷ cluster_role_binding_object kubelet_config
    ∷ role_object kubeadm_kubelet_config_role
    ∷ role_binding_object kubeadm_kubelet_config_role_binding
    ∷ role_object kubeadm_nodes_kubeadm_config_role
    ∷ role_binding_object kubeadm_nodes_kubeadm_config_role_binding
    ∷ cluster_role_object kubeadm_get_nodes_cluster_role
    ∷ cluster_role_binding_object kubeadm_get_nodes_cluster_role_binding
    ∷ config_map_object (kubeadm_config_config_map enc cc)
    ∷ []

-- Both builders of a kubelet ConfigMap dereference the networking section, and panic where
-- utils.IPAtOffset does.
unfoldable pub objects :
    Net → Encoders → ClusterContext → BootstrapToken → Bytes → Option (List Object)
objects net enc cc tok ca_pem = elim (versioned_configuration net cc) [
  | none ↦ none
  | some kc ↦ elim (unversioned_configuration net cc) [
    | none ↦ none
    | some unversioned ↦ some (objects_with enc cc tok ca_pem kc unversioned)
  ]
]
