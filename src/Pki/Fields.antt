-- ===== src/Pki/Fields.antt =====
-- What cert-manager asks of each certificate of a control plane, field by field.
use controlplane_operator.Base.{
  ℕ, zero, suc, ◌≤◌, ◌<◌, String, ◌≡◌, refl, ap, sym, ◌∙◌, All, All-append, ◌&◌, Option, none, some,
  arith,
}
use controlplane_operator.Net.{Net}
use controlplane_operator.Utils.Text.{size, take, truncate_to_max_length}
use controlplane_operator.Cluster.{ClusterContext, namespace}
use controlplane_operator.Builders.Certificate.{Certificate}
use controlplane_operator.Pki.Built.{meta_of, meta_of_eq, meta_of_namespace}
use controlplane_operator.Pki.CommonNames.{default_durations}
use controlplane_operator.Pki.Roots.{root_certificates}
use controlplane_operator.Pki.EtcdCertificates.{pod0, etcd_common_name}
use controlplane_operator.Pki.Resources.{certificate_resources, leaf_certificates}

-- A certificate is renewed before it ends; without a duration, cert-manager decides on both.
abbrev pub Renews : Option ℕ → Option ℕ → Type 0
Renews none none = Unit
Renews (some duration) (some renew_before) = renew_before < duration
Renews _ _ = ⊥

pub record Sound (cc : ClusterContext) (c : Certificate) : Type 0 where
  -- The secret has the certificate's own name.
  pub own_secret : c.spec.secret_name ≡ c.meta.name
  pub beside : c.meta.namespace ≡ namespace cc
  -- X.509 bounds the common name.
  pub fits : size c.spec.common_name ≤ 64
  pub renews : Renews c.spec.duration c.spec.renew_before

size-take : (n : ℕ) (s : String) → size (take n s) ≤ n
unfolding size take
size-take zero s = omega arith
size-take (suc n) String.[] = omega arith
size-take (suc n) (String.◌∷◌ c s) = omega (arith, size-take n s)

-- A name that was truncated, or did not need it, has at most 64 bytes.
pub size-truncate_to_max_length : (s : String) → size (truncate_to_max_length s).0 ≤ 64
unfolding truncate_to_max_length
size-truncate_to_max_length s = ground (arith, size-take 64 s)

module _ (net : Net) (cc : ClusterContext) where
  sound :
      (n : String) (c : Certificate)
      → c.meta ≡ meta_of cc n
      → c.spec.secret_name ≡ n
      → size c.spec.common_name ≤ 64
      → Renews c.spec.duration c.spec.renew_before
      → Sound cc c
  sound n c m s fits renews = record {
    own_secret = s ∙ sym (meta_of_eq cc n) ∙ sym (ap (λ x. x.name) m);
    beside = ap (λ x. x.namespace) m ∙ meta_of_namespace cc n;
    fits = fits;
    renews = renews;
  }

  leaf :
      (n : String) (c : Certificate)
      → c.meta ≡ meta_of cc n
      → c.spec.secret_name ≡ n
      → size c.spec.common_name ≤ 64
      → c.spec.duration ≡ some default_durations.ten_years
      → c.spec.renew_before ≡ some default_durations.thirty_days
      → Sound cc c
  leaf n c m s fits d r = sound n c m s fits (rw (d, r) (omega arith))

  etcd_fits : size (etcd_common_name cc) ≤ 64
  unfolding etcd_common_name
  etcd_fits = size-truncate_to_max_length (pod0 cc)

  roots-Sound : All (Sound cc) (root_certificates cc)
  unfolding size
  roots-Sound =
      sound _ _ refl refl (omega arith) tt
      & sound _ _ refl refl (omega arith) tt
      & sound _ _ refl refl (omega arith) tt
      & sound _ _ refl refl (omega arith) tt
      & tt

  leaves-Sound : All (Sound cc) (leaf_certificates net cc default_durations)
  unfolding size
  leaves-Sound =
      leaf _ _ refl refl (omega arith) refl refl
      & leaf _ _ refl refl (omega arith) refl refl
      & leaf _ _ refl refl (omega arith) refl refl
      & leaf _ _ refl refl (omega arith) refl refl
      & leaf _ _ refl refl (omega arith) refl refl
      & leaf _ _ refl refl etcd_fits refl refl
      & leaf _ _ refl refl etcd_fits refl refl
      & leaf _ _ refl refl (omega arith) refl refl
      & leaf _ _ refl refl (omega arith) refl refl
      & leaf _ _ refl refl (omega arith) refl refl
      & leaf _ _ refl refl (omega arith) refl refl
      & leaf _ _ refl refl (omega arith) refl refl
      & leaf _ _ refl refl (omega arith) refl refl
      & tt

  -- Every certificate of a control plane has the secret of its own name, stands in the control
  -- plane's namespace, has a common name of at most 64 bytes however long the control plane's name
  -- is, and is renewed before it ends.
  pub certificate_resources-Sound : All (Sound cc) (certificate_resources net cc default_durations)
  unfolding certificate_resources
  certificate_resources-Sound =
      All-append (Sound cc) (root_certificates cc) (leaf_certificates net cc default_durations)
        roots-Sound leaves-Sound
