-- ===== src/Pki/Clients.antt =====
-- pkg/resources/pki/pki.go, `certificateResources`: the client certificates of the components.
use controlplane_operator.Base.{some, [], ◌∷◌}
use controlplane_operator.Cluster.{ClusterContext, namespace}
use controlplane_operator.Cluster.Certificates
use controlplane_operator.Cluster.Issuers
use controlplane_operator.Builders.Pipe.{◌▷◌}
use controlplane_operator.Builders.Certificate.{
  usage_digital_signature, usage_key_encipherment, usage_client_auth, Certificate, new_certificate,
  with_name, with_namespace, with_secret_name, with_common_name, issuer, with_duration,
  with_renew_before, with_usages, with_organizations, build,
}
use controlplane_operator.Pki.CommonNames.{
  cn_apiserver_kubelet, cn_front_proxy_client, cn_cm_client, cn_scheduler_client, cn_admin_client,
  cn_konnectivity_agent, org_system_masters, Durations,
}

abbrev pub apiserver_kubelet_certificate : ClusterContext → Durations → Certificate
apiserver_kubelet_certificate cc d =
    new_certificate
    ▷ with_name (Certificates.apiserver_kubelet_client cc)
    ▷ with_namespace (namespace cc)
    ▷ with_secret_name (Certificates.apiserver_kubelet_client cc)
    ▷ with_common_name cn_apiserver_kubelet
    ▷ issuer (Issuers.ca cc)
    ▷ with_duration (some d.ten_years)
    ▷ with_renew_before (some d.thirty_days)
    ▷ with_usages (usage_digital_signature ∷ usage_key_encipherment ∷ usage_client_auth ∷ [])
    ▷ with_organizations (org_system_masters ∷ [])
    ▷ build

abbrev pub konnectivity_agent_certificate : ClusterContext → Durations → Certificate
konnectivity_agent_certificate cc d =
    new_certificate
    ▷ with_name (Certificates.konnectivity_agent_tls cc)
    ▷ with_namespace (namespace cc)
    ▷ with_secret_name (Certificates.konnectivity_agent_tls cc)
    ▷ with_common_name cn_konnectivity_agent
    ▷ issuer (Issuers.konnectivity_ca cc)
    ▷ with_duration (some d.ten_years)
    ▷ with_renew_before (some d.thirty_days)
    ▷ with_usages (usage_digital_signature ∷ usage_key_encipherment ∷ usage_client_auth ∷ [])
    ▷ build

abbrev pub front_proxy_client_certificate : ClusterContext → Durations → Certificate
front_proxy_client_certificate cc d =
    new_certificate
    ▷ with_name (Certificates.front_proxy_client cc)
    ▷ with_namespace (namespace cc)
    ▷ with_secret_name (Certificates.front_proxy_client cc)
    ▷ with_common_name cn_front_proxy_client
    ▷ issuer (Issuers.front_proxy_ca cc)
    ▷ with_duration (some d.ten_years)
    ▷ with_renew_before (some d.thirty_days)
    ▷ with_usages (usage_digital_signature ∷ usage_key_encipherment ∷ usage_client_auth ∷ [])
    ▷ build

abbrev pub cm_client_certificate : ClusterContext → Durations → Certificate
cm_client_certificate cc d =
    new_certificate
    ▷ with_name (Certificates.cm_client cc)
    ▷ with_namespace (namespace cc)
    ▷ with_secret_name (Certificates.cm_client cc)
    ▷ with_common_name cn_cm_client
    ▷ issuer (Issuers.ca cc)
    ▷ with_duration (some d.ten_years)
    ▷ with_renew_before (some d.thirty_days)
    ▷ with_usages (usage_digital_signature ∷ usage_key_encipherment ∷ usage_client_auth ∷ [])
    ▷ build

abbrev pub scheduler_client_certificate : ClusterContext → Durations → Certificate
scheduler_client_certificate cc d =
    new_certificate
    ▷ with_name (Certificates.scheduler_client cc)
    ▷ with_namespace (namespace cc)
    ▷ with_secret_name (Certificates.scheduler_client cc)
    ▷ with_common_name cn_scheduler_client
    ▷ issuer (Issuers.ca cc)
    ▷ with_duration (some d.ten_years)
    ▷ with_renew_before (some d.thirty_days)
    ▷ with_usages (usage_digital_signature ∷ usage_key_encipherment ∷ usage_client_auth ∷ [])
    ▷ build

abbrev pub admin_client_certificate : ClusterContext → Durations → Certificate
admin_client_certificate cc d =
    new_certificate
    ▷ with_name (Certificates.admin_client cc)
    ▷ with_namespace (namespace cc)
    ▷ with_secret_name (Certificates.admin_client cc)
    ▷ with_common_name cn_admin_client
    ▷ issuer (Issuers.ca cc)
    ▷ with_organizations (org_system_masters ∷ [])
    ▷ with_duration (some d.ten_years)
    ▷ with_renew_before (some d.thirty_days)
    ▷ with_usages (usage_digital_signature ∷ usage_key_encipherment ∷ usage_client_auth ∷ [])
    ▷ build
