-- ===== src/Pki/Distinctness.antt =====
-- Which names of issuers and secrets can meet.
use Prim.Native.String
use controlplane_operator.Base.{
  String, ◌≡◌, ◌≢◌, refl, ap, sym, ◌∙◌, true, false, List, [], ◌∷◌, map, eq_iff,
}
use controlplane_operator.Net.{Net}
use controlplane_operator.Cluster.{ClusterContext, name, namespace, prefix}
use controlplane_operator.Cluster.Certificates
use controlplane_operator.Cluster.Issuers
use controlplane_operator.Cluster.Names.{Distinct, distinct-Distinct, Distinct-prefix, prefix_shift}
use controlplane_operator.Builders.Certificate.{Certificate}
use controlplane_operator.Builders.Issuer.{IssuerConfig, ca_issuer}
use controlplane_operator.Builders.Meta.{with_name, with_namespace, empty_meta}
use text.Mathlib.TextLemmas.{append_cancel_left}
use controlplane_operator.Pki.CommonNames.{Durations}
use controlplane_operator.Pki.IssuerResources.{issuer_ca, issuer_etcd_ca}
use controlplane_operator.Pki.Resources.{certificate_resources}

abbrev suffixes : List String
suffixes =
    "managed-ca" ∷ "etcd-ca" ∷ "front-proxy-ca" ∷ "konnectivity-ca" ∷ "sa-signer" ∷ "apiserver-tls"
    ∷ "konnectivity-server-tls" ∷ "apiserver-kubelet-client" ∷ "konnectivity-agent-tls"
    ∷ "etcd-server-tls" ∷ "etcd-peer-tls" ∷ "etcd-healthcheck-client" ∷ "apiserver-etcd-client"
    ∷ "front-proxy-client" ∷ "cm-client" ∷ "scheduler-client" ∷ "admin-client" ∷ []

-- No two certificates of a control plane write to one secret.
pub secrets-Distinct :
    (net : Net) (cc : ClusterContext) (d : Durations)
    → Distinct (map (λ (c : Certificate). c.spec.secret_name) (certificate_resources net cc d))
unfolding certificate_resources Certificates.managed_ca Certificates.etcd_ca
    Certificates.front_proxy_ca Certificates.konnectivity_ca Certificates.sa_signer
    Certificates.apiserver_tls Certificates.konnectivity_server_tls
    Certificates.apiserver_kubelet_client Certificates.konnectivity_agent_tls
    Certificates.etcd_server_tls Certificates.etcd_peer_tls Certificates.etcd_health_client
    Certificates.apiserver_etcd_client Certificates.front_proxy_client Certificates.cm_client
    Certificates.scheduler_client Certificates.admin_client
secrets-Distinct net cc d = Distinct-prefix cc suffixes (distinct-Distinct suffixes refl)

abbrev secret_of : IssuerConfig → String
secret_of (ca_issuer s) = s
secret_of _ = ""

-- The control plane `x-etcd` has the issuer of its managed authority under the name of the issuer of
-- the etcd authority of the control plane `x` beside it, and the two want different secrets.
pub issuers_collide :
    (cp other : ClusterContext)
    → name other ≡ String.◌++◌ (name cp) "-etcd"
    → namespace other ≡ namespace cp
    → ((issuer_ca other).meta ≡ (issuer_etcd_ca cp).meta)
      × ((issuer_ca other).config ≢ (issuer_etcd_ca cp).config)
unfolding Issuers.ca Issuers.etcd_ca Certificates.managed_ca Certificates.etcd_ca prefix
issuers_collide cp other e ns =
    let same : Issuers.ca other ≡ Issuers.etcd_ca cp =
      prefix_shift cp other "-etcd" "ca-issuer" e in
    let theirs : Certificates.managed_ca other ≡ String.◌++◌ (name cp) "-etcd-managed-ca" =
      prefix_shift cp other "-etcd" "managed-ca" e in
    (
      ap (λ n. with_namespace (namespace other) (with_name n empty_meta)) same
          ∙ ap (λ n. with_namespace n (with_name (Issuers.etcd_ca cp) empty_meta)) ns,
      λ equal.
          let secrets : String.◌++◌ (name cp) "-etcd-managed-ca"
              ≡ String.◌++◌ (name cp) "-etcd-ca" =
            sym theirs ∙ ap secret_of equal in
          let ends = append_cancel_left (name cp) "-etcd-managed-ca" "-etcd-ca" secrets in
          let absurd : false ≡ true = (eq_iff "-etcd-managed-ca" "-etcd-ca").1 ends in cc,
    )
