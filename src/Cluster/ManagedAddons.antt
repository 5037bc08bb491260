-- ===== src/Cluster/ManagedAddons.antt =====
-- pkg/cluster/addons.go, `managedAddons`: the add-ons' namespace and the bootstrap token secret.
use controlplane_operator.Base.{String}
use controlplane_operator.Cluster.{ClusterContext, prefix}

abbrev pub konnectivity_agent_namespace : String
konnectivity_agent_namespace = "kube-system"

unfoldable pub bootstrap_token_mgmt_secret_name : ClusterContext → String
unfolding prefix
bootstrap_token_mgmt_secret_name cc = prefix cc "bootstrap-token"
