-- ===== src/Cluster/Issuers.antt =====
-- pkg/cluster/pki.go, `issuers`: the names of the cert-manager issuers, with the constants of
-- const.go in place.
use controlplane_operator.Base.{String}
use controlplane_operator.Cluster.{ClusterContext, prefix}

unfoldable pub self_signed : ClusterContext → String
unfolding prefix
self_signed cc = prefix cc "selfsigned"

unfoldable pub ca : ClusterContext → String
unfolding prefix
ca cc = prefix cc "ca-issuer"

unfoldable pub etcd_self_signed : ClusterContext → String
unfolding prefix
etcd_self_signed cc = prefix cc "etcd-selfsigned"

unfoldable pub etcd_ca : ClusterContext → String
unfolding prefix
etcd_ca cc = prefix cc "etcd-ca-issuer"

unfoldable pub front_proxy_self_signed : ClusterContext → String
unfolding prefix
front_proxy_self_signed cc = prefix cc "front-proxy-selfsigned"

unfoldable pub front_proxy_ca : ClusterContext → String
unfolding prefix
front_proxy_ca cc = prefix cc "front-proxy-ca-issuer"

unfoldable pub konnectivity_self_signed : ClusterContext → String
unfolding prefix
konnectivity_self_signed cc = prefix cc "konnectivity-selfsigned"

unfoldable pub konnectivity_ca : ClusterContext → String
unfolding prefix
konnectivity_ca cc = prefix cc "konnectivity-ca-issuer"
