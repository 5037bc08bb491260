-- ===== src/Cluster/Etcd.antt =====
-- pkg/cluster/etcd.go: names, addresses and certificate paths of the etcd member.
use Prim.Native.String.{◌++◌}
use controlplane_operator.Base.{ℕ, String}
use controlplane_operator.Utils.Text.{port_string}
use controlplane_operator.Cluster.{
  ClusterContext, namespace, prefix, cert_path as cert_path_of, key_path as key_path_of,
  ca_path as ca_path_of,
}
use controlplane_operator.Cluster.Certificates

unfoldable pub service_name : ClusterContext → String
unfolding prefix
service_name cc = prefix cc "etcd"

unfoldable pub stateful_set_name : ClusterContext → String
unfolding prefix
stateful_set_name cc = prefix cc "etcd"

unfoldable pub member_name : ClusterContext → String
unfolding prefix
member_name cc = prefix cc "etcd-0"

abbrev pub client_port : ℕ
client_port = 2379

abbrev pub peer_port : ℕ
peer_port = 2380

unfoldable pub service_fqdn : ClusterContext → String
unfolding service_name
service_fqdn cc = service_name cc ++ "." ++ namespace cc ++ ".svc.cluster.local"

unfoldable pub member_fqdn_client : ClusterContext → String
unfolding member_name service_name
member_fqdn_client cc =
    member_name cc
    ++ "."
    ++ service_name cc
    ++ "."
    ++ namespace cc
    ++ ".svc:"
    ++ port_string client_port

unfoldable pub member_fqdn_peer : ClusterContext → String
unfolding member_name service_name
member_fqdn_peer cc =
    member_name cc
    ++ "."
    ++ service_name cc
    ++ "."
    ++ namespace cc
    ++ ".svc:"
    ++ port_string peer_port

abbrev pub data_dir : String
data_dir = "/var/lib/etcd"

abbrev pub default_storage : String
default_storage = "10Gi"

unfoldable pub ca_secret : ClusterContext → String
ca_secret cc = Certificates.etcd_ca cc

unfoldable pub server_tls_secret : ClusterContext → String
server_tls_secret cc = Certificates.etcd_server_tls cc

unfoldable pub peer_tls_secret : ClusterContext → String
peer_tls_secret cc = Certificates.etcd_peer_tls cc

unfoldable pub health_client_tls_secret : ClusterContext → String
health_client_tls_secret cc = Certificates.etcd_health_client cc

unfoldable pub health_client_cert_path : ClusterContext → String
unfolding health_client_tls_secret
health_client_cert_path cc = cert_path_of cc (health_client_tls_secret cc)

unfoldable pub health_client_key_path : ClusterContext → String
unfolding health_client_tls_secret
health_client_key_path cc = key_path_of cc (health_client_tls_secret cc)

unfoldable pub ca_path : ClusterContext → String
unfolding ca_secret
ca_path cc = ca_path_of cc (ca_secret cc)

unfoldable pub server_cert_path : ClusterContext → String
unfolding server_tls_secret
server_cert_path cc = cert_path_of cc (server_tls_secret cc)

unfoldable pub server_key_path : ClusterContext → String
unfolding server_tls_secret
server_key_path cc = key_path_of cc (server_tls_secret cc)

unfoldable pub peer_cert_path : ClusterContext → String
unfolding peer_tls_secret
peer_cert_path cc = cert_path_of cc (peer_tls_secret cc)

unfoldable pub peer_key_path : ClusterContext → String
unfolding peer_tls_secret
peer_key_path cc = key_path_of cc (peer_tls_secret cc)
