-- ===== src/Cluster/ControllerManager.antt =====
-- pkg/cluster/controllermanager.go: the names of the controller manager's resources and secrets.
use controlplane_operator.Base.{String}
use controlplane_operator.Cluster.{ClusterContext, prefix}
use controlplane_operator.Cluster.Certificates

unfoldable pub deployment_name : ClusterContext → String
unfolding prefix
deployment_name cc = prefix cc "controller-manager"

unfoldable pub kubeconfig_config_map_name : ClusterContext → String
unfolding prefix
kubeconfig_config_map_name cc = prefix cc "controller-manager-kubeconfig"

unfoldable pub cluster_ca_secret : ClusterContext → String
cluster_ca_secret cc = Certificates.managed_ca cc

unfoldable pub client_cert_secret : ClusterContext → String
client_cert_secret cc = Certificates.cm_client cc

unfoldable pub sa_signer_secret : ClusterContext → String
sa_signer_secret cc = Certificates.sa_signer cc
