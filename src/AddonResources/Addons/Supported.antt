-- ===== src/AddonResources/Addons/Supported.antt =====
-- The add-ons have what they refer to.
use controlplane_operator.Base.{
  ◌≡◌, refl, Option, none, some, true, List, [], ◌++◌, All, Option-cases, inl, inr,
}
use controlplane_operator.Api.{NetworkingSpec}
use controlplane_operator.Net.{Ip, Net}
use controlplane_operator.Utils.Text.{ip_at_offset}
use controlplane_operator.Cluster.{ClusterContext}
use controlplane_operator.AddonResources.Objects.{Object}
use controlplane_operator.AddonResources.Backing.{Backed, namespaces_first}
use controlplane_operator.AddonResources.Konnectivity
use controlplane_operator.AddonResources.KubeProxy
use controlplane_operator.AddonResources.CoreDns
use controlplane_operator.AddonResources.Flannel
use controlplane_operator.AddonResources.Csi
use controlplane_operator.AddonResources.Addons.{objects}
use controlplane_operator.AddonResources.Backing.Longer.{Closed, Closed-append}
use controlplane_operator.AddonResources.Addons.Parts.{
  own_cluster_roles, kube_proxy_objects, flannel_objects, build_konnectivity_agent-Closed,
  kube_proxy_objects-Closed, flannel_objects-Closed, core_dns_objects-Closed, build_csi-Closed,
}

-- The objects where nothing panics.
abbrev pub all_objects : Net → ClusterContext → NetworkingSpec → Option Ip → List Object
all_objects net cc networking ip =
    Konnectivity.build_konnectivity_agent cc
    ++ (kube_proxy_objects cc networking
        ++ (flannel_objects networking
            ++ (CoreDns.core_dns_objects (CoreDns.core_dns_service net ip) ++ Csi.build_csi)))

module _ (net : Net) (mcp : ClusterContext) (networking : NetworkingSpec)
    (given : mcp.spec.kubernetes.networking ≡ some networking) where
  pub objects_lem :
      (ip : Option Ip)
      → CoreDns.ip_or_nil (ip_at_offset net networking.service_cidr 10) ≡ some ip
      → objects net mcp ≡ some (all_objects net mcp networking ip)
  unfolding objects KubeProxy.build_kubeproxy Flannel.build_flannel CoreDns.build_core_dns
      CoreDns.build_core_dns_service
  objects_lem ip f = rw given (rw (f, CoreDns.build_core_dns, CoreDns.build_core_dns_service) refl)

  objects_panic :
      CoreDns.ip_or_nil (ip_at_offset net networking.service_cidr 10) ≡ none
      → objects net mcp ≡ none
  unfolding objects KubeProxy.build_kubeproxy Flannel.build_flannel CoreDns.build_core_dns
      CoreDns.build_core_dns_service
  objects_panic f = rw given (rw (f, CoreDns.build_core_dns, CoreDns.build_core_dns_service) refl)

objects_without :
    (net : Net) (mcp : ClusterContext)
    → mcp.spec.kubernetes.networking ≡ none
    → objects net mcp ≡ none
unfolding objects KubeProxy.build_kubeproxy Flannel.build_flannel CoreDns.build_core_dns
    CoreDns.build_core_dns_service
objects_without net mcp e = rw e refl

-- Objects that are built are all of them.
pub record Built (net : Net) (mcp : ClusterContext) (objs : List Object) : Type 0 where
  pub networking : NetworkingSpec
  pub ip : Option Ip
  pub given : mcp.spec.kubernetes.networking ≡ some networking
  pub tenth : CoreDns.ip_or_nil (ip_at_offset net networking.service_cidr 10) ≡ some ip
  pub whole : objs ≡ all_objects net mcp networking ip

pub objects-Built :
    (net : Net) (mcp : ClusterContext) {objs : List Object}
    → objects net mcp ≡ some objs
    → Built net mcp objs
objects-Built net mcp {objs} h = elim (Option-cases mcp.spec.kubernetes.networking) [
  | inl e ↦ let gone = objects_without net mcp e in cc
  | inr (networking, e) ↦
      elim (Option-cases (CoreDns.ip_or_nil (ip_at_offset net networking.service_cidr 10))) [
        | inl f ↦ let gone = objects_panic net mcp networking e f in cc
        | inr (ip, f) ↦
            let found = objects_lem net mcp networking e ip f in
            record { networking = networking; ip = ip; given = e; tenth = f; whole = cc }
      ]
]

all_objects-Closed :
    (net : Net) (cc : ClusterContext) (networking : NetworkingSpec) (ip : Option Ip)
    → Closed own_cluster_roles (all_objects net cc networking ip)
all_objects-Closed net cc networking ip =
    let own = own_cluster_roles in
    let konnectivity : List Object = Konnectivity.build_konnectivity_agent cc in
    let kube_proxy : List Object = kube_proxy_objects cc networking in
    let flannel : List Object = flannel_objects networking in
    let core_dns : List Object = CoreDns.core_dns_objects (CoreDns.core_dns_service net ip) in
    let two =
      Closed-append own core_dns Csi.build_csi (core_dns_objects-Closed net ip) build_csi-Closed in
    let three =
      Closed-append own flannel (core_dns ++ Csi.build_csi) (flannel_objects-Closed networking)
        two in
    let four =
      Closed-append own kube_proxy (flannel ++ (core_dns ++ Csi.build_csi))
        (kube_proxy_objects-Closed cc networking) three in
    Closed-append own konnectivity (kube_proxy ++ (flannel ++ (core_dns ++ Csi.build_csi)))
      (build_konnectivity_agent-Closed cc) four

-- When the add-ons are built, each has what it refers to among them, or is a binding of a ClusterRole
-- that a new cluster has, and stands behind its namespace.
pub objects-Backed :
    (net : Net) (mcp : ClusterContext) (objs : List Object)
    → objects net mcp ≡ some objs
    → All (Backed own_cluster_roles objs) objs × (namespaces_first [] objs ≡ true)
objects-Backed net mcp objs h =
    let b = objects-Built net mcp h in rw b.whole (all_objects-Closed net mcp b.networking b.ip)
