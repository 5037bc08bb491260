-- ===== src/Pki/Sans.antt =====
-- pkg/resources/pki/pki.go, `apiserverSANs` and `konnectivityServerSANs`.
use Prim.Native.String
use controlplane_operator.Base.{String, none, some, List, [], ◌∷◌, ◌++◌, str_eq, if◌then◌else◌}
use controlplane_operator.Net.{Net}
use controlplane_operator.Cluster.{ClusterContext, namespace}
use controlplane_operator.Cluster.ApiServer
use controlplane_operator.Pki.Addresses.{first_service_ip}

-- The first service address, when there is a network and it can be read.
unfoldable pub service_ips : Net → ClusterContext → List String
unfolding first_service_ip
service_ips net cc = elim cc.spec.kubernetes.networking [
  | none ↦ []
  | some networking ↦ elim (first_service_ip net networking.service_cidr) [
    | none ↦ []
    | some svc_ip ↦ svc_ip ∷ []
  ]
]

-- From the first service address on, which the two functions have in common.
unfoldable pub with_addresses : Net → ClusterContext → List String → List String × List String
unfolding service_ips
with_addresses net cc dns =
    let ips = service_ips net cc in
    let addr = cc.status.address in
    if str_eq addr "" then (dns, ips ++ "127.0.0.1" ∷ []) else elim (net.parse_ip addr) [
      | some ip ↦ (dns, (ips ++ addr ∷ []) ++ "127.0.0.1" ∷ [])
      | none ↦ (dns ++ addr ∷ [], ips ++ "127.0.0.1" ∷ [])
    ]

unfoldable pub konnectivity_server_sans : Net → ClusterContext → List String × List String
unfolding with_addresses
konnectivity_server_sans net cc =
    let ns = namespace cc in
    with_addresses net cc (
      "konnectivity-server"
      ∷ String.◌++◌ "konnectivity-server." ns
      ∷ String.◌++◌ "konnectivity-server." (String.◌++◌ ns ".svc")
      ∷ [])

unfoldable pub apiserver_sans : Net → ClusterContext → List String × List String
unfolding with_addresses
apiserver_sans net cc =
    let ns = namespace cc in
    let svc = ApiServer.service_name cc in
    with_addresses net cc (
      String.◌++◌ svc (String.◌++◌ "." (String.◌++◌ ns ".svc"))
      ∷ String.◌++◌ svc (String.◌++◌ "." (String.◌++◌ ns ".svc.cluster.local"))
      ∷ String.◌++◌ "kube-apiserver." (String.◌++◌ ns ".svc")
      ∷ String.◌++◌ "kube-apiserver." (String.◌++◌ ns ".svc.cluster.local")
      ∷ "kubernetes"
      ∷ "kubernetes.default"
      ∷ "kubernetes.default.svc"
      ∷ "kubernetes.default.svc.cluster.local"
      ∷ "localhost"
      ∷ [])
