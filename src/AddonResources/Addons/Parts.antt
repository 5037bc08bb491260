-- ===== src/AddonResources/Addons/Parts.antt =====
-- Each add-on by itself has what it refers to.
use controlplane_operator.Base.{String, refl, Option, List, [], ◌∷◌, ◌&◌, insert, lookup}
use controlplane_operator.Api.{NetworkingSpec}
use controlplane_operator.Net.{Ip, Net}
use controlplane_operator.Utils.Text.{merge_into}
use controlplane_operator.Cluster.{ClusterContext}
use controlplane_operator.Builders.Meta.{with_name, with_namespace, with_labels, with_annotations}
use controlplane_operator.AddonResources.Objects.{
  Object, account_object, cluster_role_binding_object, config_map_object, daemon_set_object,
  namespace_object, cluster_role_object,
}
use controlplane_operator.AddonResources.Backing.Longer.{Closed}
use controlplane_operator.AddonResources.Konnectivity
use controlplane_operator.AddonResources.KubeProxy
use controlplane_operator.AddonResources.CoreDns
use controlplane_operator.AddonResources.Flannel
use controlplane_operator.AddonResources.Csi

-- The ClusterRoles of a new cluster that the add-ons use.
abbrev pub own_cluster_roles : List String
own_cluster_roles = "system:node-proxier" ∷ []

abbrev pub kube_proxy_objects : ClusterContext → NetworkingSpec → List Object
kube_proxy_objects cc networking =
    account_object KubeProxy.build_kubeproxy_service_account
    ∷ cluster_role_binding_object KubeProxy.build_kubeproxy_cluster_role_binding
    ∷ config_map_object (KubeProxy.build_kubeproxy_config_map cc networking)
    ∷ daemon_set_object (KubeProxy.build_kubeproxy_daemon_set cc)
    ∷ []

abbrev pub flannel_objects : NetworkingSpec → List Object
flannel_objects networking =
    namespace_object Flannel.build_flannel_namespace
    ∷ account_object Flannel.build_flannel_service_account
    ∷ cluster_role_object Flannel.build_flannel_cluster_role
    ∷ cluster_role_binding_object Flannel.build_flannel_cluster_role_binding
    ∷ config_map_object (Flannel.build_flannel_config_map networking)
    ∷ daemon_set_object Flannel.build_flannel_daemon_set
    ∷ []

pub build_konnectivity_agent-Closed :
    (cc : ClusterContext) → Closed own_cluster_roles (Konnectivity.build_konnectivity_agent cc)
unfolding Konnectivity.build_konnectivity_agent Konnectivity.build_konnectivity_agent_daemon_set
    Konnectivity.container Konnectivity.volume with_name with_namespace with_labels with_annotations
    merge_into insert lookup
build_konnectivity_agent-Closed cc = ((refl, refl, refl, refl) & tt, refl)

pub kube_proxy_objects-Closed :
    (cc : ClusterContext) (networking : NetworkingSpec)
    → Closed own_cluster_roles (kube_proxy_objects cc networking)
unfolding KubeProxy.build_kubeproxy_service_account KubeProxy.build_kubeproxy_cluster_role_binding
    KubeProxy.build_kubeproxy_config_map KubeProxy.build_kubeproxy_daemon_set KubeProxy.container
    with_name with_namespace with_labels with_annotations merge_into insert lookup
kube_proxy_objects-Closed cc networking =
    (tt & (refl, refl) & tt & (refl, refl, refl, refl) & tt, refl)

pub flannel_objects-Closed :
    (networking : NetworkingSpec) → Closed own_cluster_roles (flannel_objects networking)
unfolding Flannel.build_flannel_namespace Flannel.build_flannel_service_account
    Flannel.build_flannel_cluster_role Flannel.build_flannel_cluster_role_binding
    Flannel.build_flannel_config_map Flannel.build_flannel_daemon_set Flannel.init_containers
    Flannel.container with_name with_namespace with_labels with_annotations merge_into insert lookup
flannel_objects-Closed networking =
    (tt & tt & tt & (refl, refl) & tt & (refl, refl, refl, refl) & tt, refl)

pub core_dns_objects-Closed :
    (net : Net) (ip : Option Ip)
    → Closed own_cluster_roles (CoreDns.core_dns_objects (CoreDns.core_dns_service net ip))
unfolding CoreDns.core_dns_objects CoreDns.core_dns_service CoreDns.container
    CoreDns.build_core_dns_service_account CoreDns.build_core_dns_cluster_role
    CoreDns.build_core_dns_cluster_role_binding CoreDns.build_core_dns_role
    CoreDns.build_core_dns_role_binding CoreDns.build_core_dns_config_map
    CoreDns.build_core_dns_deployment with_name with_namespace with_labels with_annotations
    merge_into insert lookup
core_dns_objects-Closed net ip =
    (tt & tt & (refl, refl) & refl & (refl, refl) & tt & refl & (refl, refl, refl, refl) & tt, refl)

pub build_csi-Closed : Closed own_cluster_roles Csi.build_csi
unfolding Csi.build_csi Csi.build_csi_namespace Csi.build_csi_service_account
    Csi.build_csi_cluster_role Csi.build_csi_cluster_role_binding Csi.build_csi_role
    Csi.build_csi_role_binding Csi.build_csi_config_map Csi.build_csi_storage_class
    Csi.build_csi_deployment Csi.container with_name with_namespace with_labels with_annotations
    merge_into insert lookup
build_csi-Closed = (
  tt & tt & tt & (refl, refl) & refl & (refl, refl) & tt & tt & (refl, refl, refl, refl) & tt,
  refl,
)
