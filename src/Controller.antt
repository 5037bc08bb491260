-- ===== src/Controller.antt =====
-- pkg/controller: the reconcilers of the operator.
pub mod Kube
pub mod Apply
pub mod Status
pub mod Components
pub mod Endpoint
pub mod AdminConfig
pub mod Reconcile
pub mod Addons
