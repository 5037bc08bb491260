-- ===== src/Workloads.antt =====
-- pkg/resources/etcd, apiserver, controllermanager and scheduler: the objects that run a control plane.
pub mod Backing
pub mod Etcd
pub mod EtcdFiles
pub mod ApiServer
pub mod ApiServerDeployment
pub mod ApiServerFiles
pub mod ApiServerEgress
pub mod ControllerManagerObjects
pub mod SchedulerObjects
pub mod Kubeconfigs
pub mod KubeconfigsBuilt
pub mod ControllerManagerFiles
