-- ===== src/Pki/IssuerResources.antt =====
-- pkg/resources/pki/pki.go, `issuerResources`: for each of the four authorities a self-signed issuer,
-- and the issuer that signs with the authority's secret.
use controlplane_operator.Base.{List, [], ◌∷◌}
use controlplane_operator.Cluster.{ClusterContext, namespace}
use controlplane_operator.Cluster.Certificates
use controlplane_operator.Cluster.Issuers
use controlplane_operator.Builders.Pipe.{◌▷◌}
use controlplane_operator.Builders.Issuer.{
  Issuer, new_issuer, with_name, with_namespace, self_signed, ca, build,
}

abbrev pub issuer_self_signed : ClusterContext → Issuer
issuer_self_signed cc =
    new_issuer
    ▷ with_name (Issuers.self_signed cc)
    ▷ with_namespace (namespace cc)
    ▷ self_signed
    ▷ build

abbrev pub issuer_ca : ClusterContext → Issuer
issuer_ca cc =
    new_issuer
    ▷ with_name (Issuers.ca cc)
    ▷ with_namespace (namespace cc)
    ▷ ca (Certificates.managed_ca cc)
    ▷ build

abbrev pub issuer_etcd_self_signed : ClusterContext → Issuer
issuer_etcd_self_signed cc =
    new_issuer
    ▷ with_name (Issuers.etcd_self_signed cc)
    ▷ with_namespace (namespace cc)
    ▷ self_signed
    ▷ build

abbrev pub issuer_etcd_ca : ClusterContext → Issuer
issuer_etcd_ca cc =
    new_issuer
    ▷ with_name (Issuers.etcd_ca cc)
    ▷ with_namespace (namespace cc)
    ▷ ca (Certificates.etcd_ca cc)
    ▷ build

abbrev pub issuer_front_proxy_self : ClusterContext → Issuer
issuer_front_proxy_self cc =
    new_issuer
    ▷ with_name (Issuers.front_proxy_self_signed cc)
    ▷ with_namespace (namespace cc)
    ▷ self_signed
    ▷ build

abbrev pub issuer_front_proxy_ca : ClusterContext → Issuer
issuer_front_proxy_ca cc =
    new_issuer
    ▷ with_name (Issuers.front_proxy_ca cc)
    ▷ with_namespace (namespace cc)
    ▷ ca (Certificates.front_proxy_ca cc)
    ▷ build

abbrev pub issuer_konnectivity_self : ClusterContext → Issuer
issuer_konnectivity_self cc =
    new_issuer
    ▷ with_name (Issuers.konnectivity_self_signed cc)
    ▷ with_namespace (namespace cc)
    ▷ self_signed
    ▷ build

abbrev pub issuer_konnectivity_ca : ClusterContext → Issuer
issuer_konnectivity_ca cc =
    new_issuer
    ▷ with_name (Issuers.konnectivity_ca cc)
    ▷ with_namespace (namespace cc)
    ▷ ca (Certificates.konnectivity_ca cc)
    ▷ build

unfoldable pub issuer_resources : ClusterContext → List Issuer
issuer_resources cc =
    issuer_self_signed cc
    ∷ issuer_ca cc
    ∷ issuer_etcd_self_signed cc
    ∷ issuer_etcd_ca cc
    ∷ issuer_front_proxy_self cc
    ∷ issuer_front_proxy_ca cc
    ∷ issuer_konnectivity_self cc
    ∷ issuer_konnectivity_ca cc
    ∷ []
