-- ===== src/Cluster/Scheduler.antt =====
-- pkg/cluster/scheduler.go: the names of the scheduler's resources and secrets.
use controlplane_operator.Base.{String}
use controlplane_operator.Cluster.{ClusterContext, prefix}
use controlplane_operator.Cluster.Certificates

unfoldable pub deployment_name : ClusterContext → String
unfolding prefix
deployment_name cc = prefix cc "scheduler"

unfoldable pub kubeconfig_config_map_name : ClusterContext → String
unfolding prefix
kubeconfig_config_map_name cc = prefix cc "scheduler-kubeconfig"

unfoldable pub cluster_ca_secret : ClusterContext → String
cluster_ca_secret cc = Certificates.managed_ca cc

unfoldable pub client_cert_secret : ClusterContext → String
client_cert_secret cc = Certificates.scheduler_client cc
