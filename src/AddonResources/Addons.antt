-- ===== src/AddonResources/Addons.antt =====
-- pkg/resources/addons/addons.go: the add-ons of a managed cluster, in the order of their application.
pub mod Parts
pub mod Supported
use controlplane_operator.Base.{Option, none, some, List, ◌++◌}
use controlplane_operator.Net.{Net}
use controlplane_operator.Cluster.{ClusterContext}
use controlplane_operator.AddonResources.Objects.{Object}
use controlplane_operator.AddonResources.Konnectivity.{build_konnectivity_agent}
use controlplane_operator.AddonResources.KubeProxy.{build_kubeproxy}
use controlplane_operator.AddonResources.CoreDns.{build_core_dns}
use controlplane_operator.AddonResources.Flannel.{build_flannel}
use controlplane_operator.AddonResources.Csi.{build_csi}

-- A builder that panics ends the whole.
infixl 5 ◌>>=◌
abbrev ◌>>=◌ : {A B : Type 0} → Option A → (A → Option B) → Option B
none >>= f = none
some a >>= f = f a

unfoldable pub objects : Net → ClusterContext → Option (List Object)
objects net cc = do
  kube_proxy ← build_kubeproxy cc
  flannel ← build_flannel cc
  core_dns ← build_core_dns net cc
  some (build_konnectivity_agent cc ++ (kube_proxy ++ (flannel ++ (core_dns ++ build_csi))))
