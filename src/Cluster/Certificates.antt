-- ===== src/Cluster/Certificates.antt =====
-- pkg/cluster/pki.go, `certificates`: the names of the certificate secrets, with the constants of
-- const.go in place.
use controlplane_operator.Base.{String}
use controlplane_operator.Cluster.{ClusterContext, prefix}

unfoldable pub managed_ca : ClusterContext → String
unfolding prefix
managed_ca cc = prefix cc "managed-ca"

unfoldable pub etcd_ca : ClusterContext → String
unfolding prefix
etcd_ca cc = prefix cc "etcd-ca"

unfoldable pub front_proxy_ca : ClusterContext → String
unfolding prefix
front_proxy_ca cc = prefix cc "front-proxy-ca"

unfoldable pub sa_signer : ClusterContext → String
unfolding prefix
sa_signer cc = prefix cc "sa-signer"

unfoldable pub apiserver_tls : ClusterContext → String
unfolding prefix
apiserver_tls cc = prefix cc "apiserver-tls"

unfoldable pub apiserver_kubelet_client : ClusterContext → String
unfolding prefix
apiserver_kubelet_client cc = prefix cc "apiserver-kubelet-client"

unfoldable pub etcd_server_tls : ClusterContext → String
unfolding prefix
etcd_server_tls cc = prefix cc "etcd-server-tls"

unfoldable pub etcd_peer_tls : ClusterContext → String
unfolding prefix
etcd_peer_tls cc = prefix cc "etcd-peer-tls"

unfoldable pub etcd_health_client : ClusterContext → String
unfolding prefix
etcd_health_client cc = prefix cc "etcd-healthcheck-client"

unfoldable pub apiserver_etcd_client : ClusterContext → String
unfolding prefix
apiserver_etcd_client cc = prefix cc "apiserver-etcd-client"

unfoldable pub front_proxy_client : ClusterContext → String
unfolding prefix
front_proxy_client cc = prefix cc "front-proxy-client"

unfoldable pub cm_client : ClusterContext → String
unfolding prefix
cm_client cc = prefix cc "cm-client"

unfoldable pub scheduler_client : ClusterContext → String
unfolding prefix
scheduler_client cc = prefix cc "scheduler-client"

unfoldable pub admin_client : ClusterContext → String
unfolding prefix
admin_client cc = prefix cc "admin-client"

unfoldable pub konnectivity_ca : ClusterContext → String
unfolding prefix
konnectivity_ca cc = prefix cc "konnectivity-ca"

unfoldable pub konnectivity_server_tls : ClusterContext → String
unfolding prefix
konnectivity_server_tls cc = prefix cc "konnectivity-server-tls"

unfoldable pub konnectivity_agent_tls : ClusterContext → String
unfolding prefix
konnectivity_agent_tls cc = prefix cc "konnectivity-agent-tls"
