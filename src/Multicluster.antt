-- ===== src/Multicluster.antt =====
-- pkg/controller/multicluster: the registry of the managed clusters that are up.
pub mod Provider
pub mod Interleaving
pub mod Sequential
