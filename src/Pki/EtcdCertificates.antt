-- ===== src/Pki/EtcdCertificates.antt =====
-- pkg/resources/pki/pki.go, `certificateResources`: the certificates of etcd and of its clients.
use Prim.Native.String
use controlplane_operator.Base.{String, some, List, [], ◌∷◌}
use controlplane_operator.Utils.Text.{truncate_to_max_length}
use controlplane_operator.Cluster.{ClusterContext, namespace}
use controlplane_operator.Cluster.Certificates
use controlplane_operator.Cluster.Issuers
use controlplane_operator.Cluster.Etcd
use controlplane_operator.Builders.Pipe.{◌▷◌}
use controlplane_operator.Builders.Certificate.{
  usage_digital_signature, usage_key_encipherment, usage_server_auth, usage_client_auth,
  Certificate, new_certificate, with_name, with_namespace, with_secret_name, with_common_name,
  issuer, with_duration, with_renew_before, with_usages, with_dns_names, build,
}
use controlplane_operator.Pki.CommonNames.{cn_etcd_health, cn_apiserver_etcd, Durations}

unfoldable pub pod0 : ClusterContext → String
pod0 cc = String.◌++◌ (Etcd.stateful_set_name cc) "-0"

unfoldable pub etcd_svc_short : ClusterContext → String
etcd_svc_short cc =
    String.◌++◌ (Etcd.service_name cc) (String.◌++◌ "." (String.◌++◌ (namespace cc) ".svc"))

unfoldable pub etcd0_short : ClusterContext → String
unfolding pod0 etcd_svc_short
etcd0_short cc = String.◌++◌ (pod0 cc) (String.◌++◌ "." (etcd_svc_short cc))

unfoldable pub etcd_dns_names : ClusterContext → List String
unfolding etcd0_short etcd_svc_short
etcd_dns_names cc =
    etcd0_short cc
    ∷ String.◌++◌ (etcd0_short cc) ".cluster.local"
    ∷ etcd_svc_short cc
    ∷ String.◌++◌ (etcd_svc_short cc) ".cluster.local"
    ∷ "localhost"
    ∷ []

unfoldable pub etcd_common_name : ClusterContext → String
unfolding pod0
etcd_common_name cc = (truncate_to_max_length (pod0 cc)).0

abbrev pub etcd_server_certificate : ClusterContext → Durations → Certificate
etcd_server_certificate cc d =
    new_certificate
    ▷ with_name (Certificates.etcd_server_tls cc)
    ▷ with_namespace (namespace cc)
    ▷ with_secret_name (Certificates.etcd_server_tls cc)
    ▷ with_common_name (etcd_common_name cc)
    ▷ issuer (Issuers.etcd_ca cc)
    ▷ with_duration (some d.ten_years)
    ▷ with_renew_before (some d.thirty_days)
    ▷ with_usages (
        usage_digital_signature ∷ usage_key_encipherment ∷ usage_server_auth ∷ usage_client_auth
        ∷ [])
    ▷ with_dns_names (etcd_dns_names cc)
    ▷ build

abbrev pub etcd_peer_certificate : ClusterContext → Durations → Certificate
etcd_peer_certificate cc d =
    new_certificate
    ▷ with_name (Certificates.etcd_peer_tls cc)
    ▷ with_namespace (namespace cc)
    ▷ with_secret_name (Certificates.etcd_peer_tls cc)
    ▷ with_common_name (etcd_common_name cc)
    ▷ issuer (Issuers.etcd_ca cc)
    ▷ with_duration (some d.ten_years)
    ▷ with_renew_before (some d.thirty_days)
    ▷ with_usages (
        usage_digital_signature ∷ usage_key_encipherment ∷ usage_server_auth ∷ usage_client_auth
        ∷ [])
    ▷ with_dns_names (etcd_dns_names cc)
    ▷ build

abbrev pub etcd_health_certificate : ClusterContext → Durations → Certificate
etcd_health_certificate cc d =
    new_certificate
    ▷ with_name (Certificates.etcd_health_client cc)
    ▷ with_namespace (namespace cc)
    ▷ with_secret_name (Certificates.etcd_health_client cc)
    ▷ with_common_name cn_etcd_health
    ▷ issuer (Issuers.etcd_ca cc)
    ▷ with_duration (some d.ten_years)
    ▷ with_renew_before (some d.thirty_days)
    ▷ with_usages (usage_digital_signature ∷ usage_key_encipherment ∷ usage_client_auth ∷ [])
    ▷ build

abbrev pub apiserver_etcd_certificate : ClusterContext → Durations → Certificate
apiserver_etcd_certificate cc d =
    new_certificate
    ▷ with_name (Certificates.apiserver_etcd_client cc)
    ▷ with_namespace (namespace cc)
    ▷ with_secret_name (Certificates.apiserver_etcd_client cc)
    ▷ with_common_name cn_apiserver_etcd
    ▷ issuer (Issuers.etcd_ca cc)
    ▷ with_duration (some d.ten_years)
    ▷ with_renew_before (some d.thirty_days)
    ▷ with_usages (usage_digital_signature ∷ usage_key_encipherment ∷ usage_client_auth ∷ [])
    ▷ build
