-- ===== src/AddonResources.antt =====
-- pkg/resources/addons: the objects that are applied in a managed cluster, the add-ons and what lets
-- nodes join it.
pub mod Objects
pub mod Backing
pub mod Konnectivity
pub mod AgentFiles
pub mod KubeProxy
pub mod CoreDns
pub mod Flannel
pub mod Csi
pub mod Addons
pub mod Join
