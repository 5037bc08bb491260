-- ===== src/Cluster/Konnectivity.antt =====
-- pkg/cluster/addons.go, `konnectivity`: the konnectivity agent and its secrets.
use controlplane_operator.Base.{String}
use controlplane_operator.Cluster.{ClusterContext}
use controlplane_operator.Cluster.Certificates

unfoldable pub ca_secret : ClusterContext → String
ca_secret cc = Certificates.konnectivity_ca cc

unfoldable pub server_tls_secret : ClusterContext → String
server_tls_secret cc = Certificates.konnectivity_server_tls cc

unfoldable pub agent_tls_secret : ClusterContext → String
agent_tls_secret cc = Certificates.konnectivity_agent_tls cc

abbrev pub agent_name : String
agent_name = "konnectivity-agent"
