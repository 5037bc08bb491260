-- ===== src/AddonResources/Join/Bindings.antt =====
-- pkg/resources/addons/rbac.go: the bindings that approve and allow the requests of joining nodes.
use controlplane_operator.Base.{String, [], ◌∷◌}
use controlplane_operator.Builders.Pipe.{◌▷◌}
use controlplane_operator.Builders.Rbac.{RoleRef, Subject}
use controlplane_operator.Builders.Rbac.ClusterRoleBinding
use controlplane_operator.Builders.Rbac.ClusterRoleBinding.{ClusterRoleBinding}
use controlplane_operator.AddonResources.Objects.{
  kind_cluster_role, kind_group, part_of, rbac_api_group,
}

abbrev pub group_bootstrappers : String
group_bootstrappers = "system:bootstrappers"

abbrev pub group_nodes : String
group_nodes = "system:nodes"

abbrev pub crb_kubeadm_node_autoapprove_bootstrap : String
crb_kubeadm_node_autoapprove_bootstrap = "kubeadm:node-autoapprove-bootstrap"

abbrev pub crb_kubeadm_node_autoapprove_rotation : String
crb_kubeadm_node_autoapprove_rotation = "kubeadm:node-autoapprove-rotation"

abbrev pub crb_node_bootstrapper_name : String
crb_node_bootstrapper_name = "kubelet-bootstrap"

abbrev pub role_node_client_csr_approve : String
role_node_client_csr_approve = "system:certificates.k8s.io:certificatesigningrequests:nodeclient"

abbrev pub role_self_node_client_csr : String
role_self_node_client_csr = "system:certificates.k8s.io:certificatesigningrequests:selfnodeclient"

abbrev pub role_node_bootstrapper : String
role_node_bootstrapper = "system:node-bootstrapper"

abbrev cluster_role : String → RoleRef
cluster_role name = record { api_group = rbac_api_group; kind = kind_cluster_role; name = name }

abbrev group : String → Subject
group name = record { api_group = rbac_api_group; kind = kind_group; name = name; namespace = "" }

unfoldable pub node_autoapprove_bootstrap : ClusterRoleBinding
node_autoapprove_bootstrap =
    ClusterRoleBinding.new_cluster_role_binding
    ▷ ClusterRoleBinding.with_name crb_kubeadm_node_autoapprove_bootstrap
    ▷ ClusterRoleBinding.with_refs (cluster_role role_node_client_csr_approve)
        (group group_bootstrappers ∷ [])
    ▷ ClusterRoleBinding.build

unfoldable pub node_autoapprove_rotation : ClusterRoleBinding
node_autoapprove_rotation =
    ClusterRoleBinding.new_cluster_role_binding
    ▷ ClusterRoleBinding.with_name crb_kubeadm_node_autoapprove_rotation
    ▷ ClusterRoleBinding.with_annotations part_of
    ▷ ClusterRoleBinding.with_refs (cluster_role role_self_node_client_csr) (group group_nodes ∷ [])
    ▷ ClusterRoleBinding.build

unfoldable pub node_bootstrapper : ClusterRoleBinding
node_bootstrapper =
    ClusterRoleBinding.new_cluster_role_binding
    ▷ ClusterRoleBinding.with_name crb_node_bootstrapper_name
    ▷ ClusterRoleBinding.with_refs (cluster_role role_node_bootstrapper)
        (group group_bootstrappers ∷ [])
    ▷ ClusterRoleBinding.build

unfoldable pub kubelet_config : ClusterRoleBinding
kubelet_config =
    ClusterRoleBinding.new_cluster_role_binding
    ▷ ClusterRoleBinding.with_name "kubeadm:kubelet-config"
    ▷ ClusterRoleBinding.with_annotations part_of
    ▷ ClusterRoleBinding.with_refs (cluster_role "system:kubelet-config-reader")
        (group "system:nodes" ∷ [])
    ▷ ClusterRoleBinding.build
