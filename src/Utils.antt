-- ===== src/Utils.antt =====
-- pkg/utils: text and maps, addresses in a network, kubeconfigs.
pub mod Text
pub mod Kubeconfig
