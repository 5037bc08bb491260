-- ===== src/Builders.antt =====
-- pkg/resources/builders: the templates that the resources are built with. A template is the object
-- that it will build, and a method is a function on it.
pub mod Pipe
pub mod Meta
pub mod Certificate
pub mod Issuer
pub mod Pod
pub mod StatefulSet
pub mod Service
pub mod Deployment
pub mod ConfigMap
pub mod DaemonSet
pub mod Secret
pub mod Rbac
pub mod Namespace
pub mod ServiceAccount
pub mod StorageClass
