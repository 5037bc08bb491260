-- ===== src/Cluster/ApiServer.antt =====
-- pkg/cluster/apiserver.go: the names of the API server's resources and secrets.
use controlplane_operator.Base.{String}
use controlplane_operator.Cluster.{ClusterContext, prefix}
use controlplane_operator.Cluster.Certificates

unfoldable pub service_name : ClusterContext → String
unfolding prefix
service_name cc = prefix cc "apiserver"

unfoldable pub deployment_name : ClusterContext → String
unfolding prefix
deployment_name cc = prefix cc "apiserver"

unfoldable pub konnectivity_config_map_name : ClusterContext → String
unfolding prefix
konnectivity_config_map_name cc = prefix cc "konnectivity-egress-selector"

unfoldable pub client_ca_secret : ClusterContext → String
client_ca_secret cc = Certificates.managed_ca cc

unfoldable pub serving_tls_secret : ClusterContext → String
serving_tls_secret cc = Certificates.apiserver_tls cc

unfoldable pub etcd_ca_secret : ClusterContext → String
etcd_ca_secret cc = Certificates.etcd_ca cc

unfoldable pub etcd_client_secret : ClusterContext → String
etcd_client_secret cc = Certificates.apiserver_etcd_client cc

unfoldable pub kubelet_client_secret : ClusterContext → String
kubelet_client_secret cc = Certificates.apiserver_kubelet_client cc

unfoldable pub sa_signer_secret : ClusterContext → String
sa_signer_secret cc = Certificates.sa_signer cc

unfoldable pub front_proxy_ca_secret : ClusterContext → String
front_proxy_ca_secret cc = Certificates.front_proxy_ca cc

unfoldable pub front_proxy_client_secret : ClusterContext → String
front_proxy_client_secret cc = Certificates.front_proxy_client cc

unfoldable pub konnectivity_ca_secret : ClusterContext → String
konnectivity_ca_secret cc = Certificates.konnectivity_ca cc

unfoldable pub konnectivity_server_secret : ClusterContext → String
konnectivity_server_secret cc = Certificates.konnectivity_server_tls cc
