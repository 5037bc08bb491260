-- ===== src/Pki/Serving.antt =====
-- pkg/resources/pki/pki.go, `certificateResources`: the serving certificates of the API server and of
-- the konnectivity server.
use controlplane_operator.Base.{some, [], ◌∷◌}
use controlplane_operator.Net.{Net}
use controlplane_operator.Cluster.{ClusterContext, namespace}
use controlplane_operator.Cluster.Certificates
use controlplane_operator.Cluster.Issuers
use controlplane_operator.Builders.Pipe.{◌▷◌}
use controlplane_operator.Builders.Certificate.{
  usage_digital_signature, usage_key_encipherment, usage_server_auth, Certificate, new_certificate,
  with_name, with_namespace, with_secret_name, with_common_name, issuer, with_duration,
  with_renew_before, with_usages, with_dns_names, with_ip_addresses, build,
}
use controlplane_operator.Pki.CommonNames.{cn_apiserver, cn_konnectivity_server, Durations}
use controlplane_operator.Pki.Sans.{apiserver_sans, konnectivity_server_sans}

abbrev pub apiserver_certificate : Net → ClusterContext → Durations → Certificate
apiserver_certificate net cc d =
    let (dns, ips) = apiserver_sans net cc in
    new_certificate
    ▷ with_name (Certificates.apiserver_tls cc)
    ▷ with_namespace (namespace cc)
    ▷ with_secret_name (Certificates.apiserver_tls cc)
    ▷ with_common_name cn_apiserver
    ▷ issuer (Issuers.ca cc)
    ▷ with_duration (some d.ten_years)
    ▷ with_renew_before (some d.thirty_days)
    ▷ with_usages (usage_digital_signature ∷ usage_key_encipherment ∷ usage_server_auth ∷ [])
    ▷ with_dns_names dns
    ▷ with_ip_addresses ips
    ▷ build

abbrev pub konnectivity_server_certificate : Net → ClusterContext → Durations → Certificate
konnectivity_server_certificate net cc d =
    let (dns, ips) = konnectivity_server_sans net cc in
    new_certificate
    ▷ with_name (Certificates.konnectivity_server_tls cc)
    ▷ with_namespace (namespace cc)
    ▷ with_secret_name (Certificates.konnectivity_server_tls cc)
    ▷ with_common_name cn_konnectivity_server
    ▷ issuer (Issuers.konnectivity_ca cc)
    ▷ with_duration (some d.ten_years)
    ▷ with_renew_before (some d.thirty_days)
    ▷ with_usages (usage_digital_signature ∷ usage_key_encipherment ∷ usage_server_auth ∷ [])
    ▷ with_dns_names dns
    ▷ with_ip_addresses ips
    ▷ build
