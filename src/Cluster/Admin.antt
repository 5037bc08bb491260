-- ===== src/Cluster/Admin.antt =====
-- pkg/cluster/addons.go, `admin`: the secrets of the administrator's kubeconfig.
use controlplane_operator.Base.{String}
use controlplane_operator.Cluster.{ClusterContext, prefix}
use controlplane_operator.Cluster.Certificates

unfoldable pub client_secret : ClusterContext → String
client_secret cc = Certificates.admin_client cc

unfoldable pub kubeconfig_secret : ClusterContext → String
unfolding prefix
kubeconfig_secret cc = prefix cc "admin-kubeconfig"

abbrev pub kubeconfig_data_key : String
kubeconfig_data_key = "kubeconfig"
