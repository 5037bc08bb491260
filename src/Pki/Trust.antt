-- ===== src/Pki/Trust.antt =====
-- The chain of trust between the issuers and the certificates that one control plane is given.
use controlplane_operator.Base.{
  String, ◌≡◌, refl, ap, sym, ◌∙◌, true, false, List, All, All-append, ◌&◌,
}
use mathlib.Core.List.{Memᴰ}
use mathlib.Core.List.Memᴰ.{head, tail}
use controlplane_operator.Net.{Net}
use controlplane_operator.Cluster.{ClusterContext}
use controlplane_operator.Cluster.Issuers
use controlplane_operator.Pki.Built.{meta_of, meta_of_eq, meta_of_beside}
use controlplane_operator.Builders.Issuer.{Issuer, self_signed_issuer, ca_issuer}
use controlplane_operator.Builders.Certificate.{Certificate}
use controlplane_operator.Pki.CommonNames.{Durations}
use controlplane_operator.Pki.IssuerResources.{
  issuer_resources, issuer_self_signed, issuer_ca, issuer_etcd_self_signed, issuer_etcd_ca,
  issuer_front_proxy_self, issuer_front_proxy_ca, issuer_konnectivity_self, issuer_konnectivity_ca,
}
use controlplane_operator.Pki.Roots.{
  root_certificates, managed_ca_certificate, etcd_ca_certificate, front_proxy_ca_certificate,
  konnectivity_ca_certificate,
}
use controlplane_operator.Pki.Resources.{certificate_resources, leaf_certificates}

-- The issuer is the one that the certificate refers to: same name, same namespace.
pub record Signs (i : Issuer) (c : Certificate) : Type 0 where
  pub refers : c.spec.issuer_ref.name ≡ i.meta.name
  pub beside : c.meta.namespace ≡ i.meta.namespace

-- An authority is signed by a self-signed issuer. Any other certificate is signed by an issuer that
-- holds the secret of an authority.
pub data Trusted (issuers : List Issuer) (certs : List Certificate) (c : Certificate) : Type 0 where
  rooted :
      (i : Issuer)
      → Memᴰ i issuers
      → i.config ≡ self_signed_issuer
      → Signs i c
      → c.spec.is_ca ≡ true
      → Trusted issuers certs c
  signed :
      (i : Issuer) (a : Certificate)
      → Memᴰ i issuers
      → Memᴰ a certs
      → i.config ≡ ca_issuer a.spec.secret_name
      → Signs i c
      → a.spec.is_ca ≡ true
      → a.meta.namespace ≡ i.meta.namespace
      → c.spec.is_ca ≡ false
      → Trusted issuers certs c

meta_of-Signs :
    (cc : ClusterContext) (n m : String) (i : Issuer) (c : Certificate)
    → i.meta ≡ meta_of cc m
    → c.meta ≡ meta_of cc n
    → c.spec.issuer_ref.name ≡ m
    → Signs i c
meta_of-Signs cc n m i c hi hc e = record {
  refers = e ∙ sym (meta_of_eq cc m) ∙ sym (ap (λ x. x.name) hi);
  beside = ap (λ x. x.namespace) hc ∙ meta_of_beside cc n m ∙ sym (ap (λ x. x.namespace) hi);
}

module _ (net : Net) (cc : ClusterContext) (d : Durations) where
  abbrev Here : Certificate → Type 0
  Here c = Trusted (issuer_resources cc) (certificate_resources net cc d) c

  root-Here :
      (n m : String) (i : Issuer) (c : Certificate)
      → i.meta ≡ meta_of cc m
      → c.meta ≡ meta_of cc n
      → c.spec.issuer_ref.name ≡ m
      → Memᴰ i (issuer_resources cc)
      → i.config ≡ self_signed_issuer
      → c.spec.is_ca ≡ true
      → Here c
  root-Here n m i c hi hc e mem config is_ca =
      rooted i mem config (meta_of-Signs cc n m i c hi hc e) is_ca

  leaf-Here :
      (n m : String) (i : Issuer) (a c : Certificate)
      → i.meta ≡ meta_of cc m
      → Memᴰ i (issuer_resources cc)
      → Memᴰ a (certificate_resources net cc d)
      → i.config ≡ ca_issuer a.spec.secret_name
      → a.spec.is_ca ≡ true
      → a.meta.namespace ≡ i.meta.namespace
      → c.meta ≡ meta_of cc n
      → c.spec.issuer_ref.name ≡ m
      → c.spec.is_ca ≡ false
      → Here c
  leaf-Here n m i a c hi mem_i mem_a config is_ca ns hc e leaf =
      signed i a mem_i mem_a config (meta_of-Signs cc n m i c hi hc e) is_ca ns leaf

  managed_leaf-Here :
      (n : String) (c : Certificate)
      → c.meta ≡ meta_of cc n
      → c.spec.issuer_ref.name ≡ Issuers.ca cc
      → c.spec.is_ca ≡ false
      → Here c
  unfolding issuer_resources certificate_resources
  managed_leaf-Here n c =
      leaf-Here n _ (issuer_ca cc) (managed_ca_certificate cc) c refl (tail (head refl)) (head refl)
        refl refl (meta_of_beside cc _ _)

  etcd_leaf-Here :
      (n : String) (c : Certificate)
      → c.meta ≡ meta_of cc n
      → c.spec.issuer_ref.name ≡ Issuers.etcd_ca cc
      → c.spec.is_ca ≡ false
      → Here c
  unfolding issuer_resources certificate_resources
  etcd_leaf-Here n c =
      leaf-Here n _ (issuer_etcd_ca cc) (etcd_ca_certificate cc) c refl
        (tail (tail (tail (head refl)))) (tail (head refl)) refl refl (meta_of_beside cc _ _)

  front_proxy_leaf-Here :
      (n : String) (c : Certificate)
      → c.meta ≡ meta_of cc n
      → c.spec.issuer_ref.name ≡ Issuers.front_proxy_ca cc
      → c.spec.is_ca ≡ false
      → Here c
  unfolding issuer_resources certificate_resources
  front_proxy_leaf-Here n c =
      leaf-Here n _ (issuer_front_proxy_ca cc) (front_proxy_ca_certificate cc) c refl
        (tail (tail (tail (tail (tail (head refl)))))) (tail (tail (head refl))) refl refl
        (meta_of_beside cc _ _)

  konnectivity_leaf-Here :
      (n : String) (c : Certificate)
      → c.meta ≡ meta_of cc n
      → c.spec.issuer_ref.name ≡ Issuers.konnectivity_ca cc
      → c.spec.is_ca ≡ false
      → Here c
  unfolding issuer_resources certificate_resources
  konnectivity_leaf-Here n c =
      leaf-Here n _ (issuer_konnectivity_ca cc) (konnectivity_ca_certificate cc) c refl
        (tail (tail (tail (tail (tail (tail (tail (head refl))))))))
        (tail (tail (tail (head refl)))) refl refl (meta_of_beside cc _ _)

  roots-Here : All Here (root_certificates cc)
  unfolding issuer_resources
  roots-Here =
      root-Here _ _ (issuer_self_signed cc) (managed_ca_certificate cc) refl refl refl (head refl)
        refl refl
      & root-Here _ _ (issuer_etcd_self_signed cc) (etcd_ca_certificate cc) refl refl refl
          (tail (tail (head refl))) refl refl
      & root-Here _ _ (issuer_front_proxy_self cc) (front_proxy_ca_certificate cc) refl refl refl
          (tail (tail (tail (tail (head refl))))) refl refl
      & root-Here _ _ (issuer_konnectivity_self cc) (konnectivity_ca_certificate cc) refl refl refl
          (tail (tail (tail (tail (tail (tail (head refl))))))) refl refl
      & tt

  leaves-Here : All Here (leaf_certificates net cc d)
  leaves-Here =
      managed_leaf-Here _ _ refl refl refl
      & managed_leaf-Here _ _ refl refl refl
      & konnectivity_leaf-Here _ _ refl refl refl
      & managed_leaf-Here _ _ refl refl refl
      & konnectivity_leaf-Here _ _ refl refl refl
      & etcd_leaf-Here _ _ refl refl refl
      & etcd_leaf-Here _ _ refl refl refl
      & etcd_leaf-Here _ _ refl refl refl
      & etcd_leaf-Here _ _ refl refl refl
      & front_proxy_leaf-Here _ _ refl refl refl
      & managed_leaf-Here _ _ refl refl refl
      & managed_leaf-Here _ _ refl refl refl
      & managed_leaf-Here _ _ refl refl refl
      & tt

  -- Every certificate of a control plane has its issuer among the control plane's issuers. The four
  -- authorities are signed by self-signed issuers; every other certificate is no authority, and is
  -- signed by an issuer that holds the secret of one of the authorities.
  pub certificate_resources-Trusted :
      All
        (Trusted (issuer_resources cc) (certificate_resources net cc d))
        (certificate_resources net cc d)
  unfolding certificate_resources
  certificate_resources-Trusted =
      All-append Here (root_certificates cc) (leaf_certificates net cc d) roots-Here leaves-Here
