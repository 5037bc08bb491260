-- ===== src/Pki/Resources.antt =====
-- pkg/resources/pki/pki.go: all certificates in the order in which they are appended, and the objects
-- of the builder.
use controlplane_operator.Base.{List, [], ◌∷◌, ◌++◌, map}
use controlplane_operator.Net.{Net}
use controlplane_operator.Cluster.{ClusterContext}
use controlplane_operator.Builders.Certificate.{Certificate}
use controlplane_operator.Builders.Issuer.{Issuer}
use controlplane_operator.Pki.CommonNames.{Durations, default_durations}
use controlplane_operator.Pki.IssuerResources.{issuer_resources}
use controlplane_operator.Pki.Roots.{root_certificates, sa_signer_certificate}
use controlplane_operator.Pki.Serving.{apiserver_certificate, konnectivity_server_certificate}
use controlplane_operator.Pki.EtcdCertificates.{
  etcd_server_certificate, etcd_peer_certificate, etcd_health_certificate,
  apiserver_etcd_certificate,
}
use controlplane_operator.Pki.Clients.{
  apiserver_kubelet_certificate, konnectivity_agent_certificate, front_proxy_client_certificate,
  cm_client_certificate, scheduler_client_certificate, admin_client_certificate,
}

pub data Object : Type 0 where
  issuer_object : Issuer → Object
  certificate_object : Certificate → Object

abbrev pub leaf_certificates : Net → ClusterContext → Durations → List Certificate
leaf_certificates net cc d =
    sa_signer_certificate cc d
    ∷ apiserver_certificate net cc d
    ∷ konnectivity_server_certificate net cc d
    ∷ apiserver_kubelet_certificate cc d
    ∷ konnectivity_agent_certificate cc d
    ∷ etcd_server_certificate cc d
    ∷ etcd_peer_certificate cc d
    ∷ etcd_health_certificate cc d
    ∷ apiserver_etcd_certificate cc d
    ∷ front_proxy_client_certificate cc d
    ∷ cm_client_certificate cc d
    ∷ scheduler_client_certificate cc d
    ∷ admin_client_certificate cc d
    ∷ []

unfoldable pub certificate_resources : Net → ClusterContext → Durations → List Certificate
certificate_resources net cc d = root_certificates cc ++ leaf_certificates net cc d

unfoldable pub objects : Net → ClusterContext → List Object
unfolding issuer_resources certificate_resources
objects net cc =
    map issuer_object (issuer_resources cc)
    ++ map certificate_object (certificate_resources net cc default_durations)
