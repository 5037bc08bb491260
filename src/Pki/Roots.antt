-- ===== src/Pki/Roots.antt =====
-- pkg/resources/pki/pki.go, `certificateResources`: the root authorities and the signer of service
-- account tokens.
use controlplane_operator.Base.{true, some, List, [], ◌∷◌}
use controlplane_operator.Cluster.{ClusterContext, namespace}
use controlplane_operator.Cluster.Certificates
use controlplane_operator.Cluster.Issuers
use controlplane_operator.Builders.Pipe.{◌▷◌}
use controlplane_operator.Builders.Certificate.{
  usage_digital_signature, usage_key_encipherment, Certificate, new_certificate, with_name,
  with_namespace, with_secret_name, with_common_name, is_ca, issuer, with_duration,
  with_renew_before, with_usages, build,
}
use controlplane_operator.Pki.CommonNames.{
  cn_managed_ca, cn_etcd_ca, cn_front_proxy_ca, cn_sa_signer, cn_konnectivity_ca, Durations,
}

abbrev pub managed_ca_certificate : ClusterContext → Certificate
managed_ca_certificate cc =
    new_certificate
    ▷ with_name (Certificates.managed_ca cc)
    ▷ with_namespace (namespace cc)
    ▷ with_secret_name (Certificates.managed_ca cc)
    ▷ with_common_name cn_managed_ca
    ▷ is_ca true
    ▷ issuer (Issuers.self_signed cc)
    ▷ build

abbrev pub etcd_ca_certificate : ClusterContext → Certificate
etcd_ca_certificate cc =
    new_certificate
    ▷ with_name (Certificates.etcd_ca cc)
    ▷ with_namespace (namespace cc)
    ▷ with_secret_name (Certificates.etcd_ca cc)
    ▷ with_common_name cn_etcd_ca
    ▷ is_ca true
    ▷ issuer (Issuers.etcd_self_signed cc)
    ▷ build

abbrev pub front_proxy_ca_certificate : ClusterContext → Certificate
front_proxy_ca_certificate cc =
    new_certificate
    ▷ with_name (Certificates.front_proxy_ca cc)
    ▷ with_namespace (namespace cc)
    ▷ with_secret_name (Certificates.front_proxy_ca cc)
    ▷ with_common_name cn_front_proxy_ca
    ▷ is_ca true
    ▷ issuer (Issuers.front_proxy_self_signed cc)
    ▷ build

abbrev pub konnectivity_ca_certificate : ClusterContext → Certificate
konnectivity_ca_certificate cc =
    new_certificate
    ▷ with_name (Certificates.konnectivity_ca cc)
    ▷ with_namespace (namespace cc)
    ▷ with_secret_name (Certificates.konnectivity_ca cc)
    ▷ with_common_name cn_konnectivity_ca
    ▷ is_ca true
    ▷ issuer (Issuers.konnectivity_self_signed cc)
    ▷ build

abbrev pub root_certificates : ClusterContext → List Certificate
root_certificates cc =
    managed_ca_certificate cc
    ∷ etcd_ca_certificate cc
    ∷ front_proxy_ca_certificate cc
    ∷ konnectivity_ca_certificate cc
    ∷ []

abbrev pub sa_signer_certificate : ClusterContext → Durations → Certificate
sa_signer_certificate cc d =
    new_certificate
    ▷ with_name (Certificates.sa_signer cc)
    ▷ with_namespace (namespace cc)
    ▷ with_secret_name (Certificates.sa_signer cc)
    ▷ with_common_name cn_sa_signer
    ▷ issuer (Issuers.ca cc)
    ▷ with_duration (some d.ten_years)
    ▷ with_renew_before (some d.thirty_days)
    ▷ with_usages (usage_digital_signature ∷ usage_key_encipherment ∷ [])
    ▷ build
