-- ===== src/Tests/PkiTests.antt =====
-- pkg/resources/pki and pkg/cluster at concrete inputs.
use controlplane_operator.Base.{
  ◌+◌, ◌<◌, ◌^◌, ◌≡◌, ◌≢◌, refl, true, false, none, some, [], ◌∷◌, All, map, arith, str_eq, eq_iff,
  if◌then◌else◌,
}
use controlplane_operator.Net.{Net, be_value, be_value_from}
use controlplane_operator.Builders.Certificate.{Certificate}
use controlplane_operator.Cluster.Names.{Distinct}
use controlplane_operator.Pki.CommonNames.{default_durations}
use controlplane_operator.Pki.IssuerResources.{issuer_resources, issuer_ca, issuer_etcd_ca}
use controlplane_operator.Pki.Resources.{certificate_resources}
use controlplane_operator.Pki.Sans.{apiserver_sans, konnectivity_server_sans}
use controlplane_operator.Pki.Trust.{Trusted, certificate_resources-Trusted}
use controlplane_operator.Pki.Fields.{Sound, certificate_resources-Sound}
use controlplane_operator.Pki.Coverage.{Covers, sans-Covers}
use controlplane_operator.Pki.Carry.{Carries, add_bytes-Carries}
use controlplane_operator.Pki.Distinctness.{secrets-Distinct, issuers_collide}
use controlplane_operator.Tests.Fixtures.{sample, published, with_name_of}

-- A reader that knows one network and one address.
abbrev pub net : Net
net = record {
  parse_cidr = λ s.
      if str_eq s "10.96.0.0/12"
      then some (10 ∷ 96 ∷ 0 ∷ 0 ∷ [], record { ip = 10 ∷ 96 ∷ 0 ∷ 0 ∷ []; ones = 12 })
      else none;
  parse_ip = λ s. if str_eq s "10.0.0.1" then some (10 ∷ 0 ∷ 0 ∷ 1 ∷ []) else none;
  v6_string = λ ip. "::";
}

certificate_resources-Trusted_example :
    All
      (Trusted (issuer_resources published) (certificate_resources net published default_durations))
      (certificate_resources net published default_durations)
certificate_resources-Trusted_example =
    certificate_resources-Trusted net published default_durations

certificate_resources-Sound_example :
    All (Sound published) (certificate_resources net published default_durations)
certificate_resources-Sound_example = certificate_resources-Sound net published

address_known : published.status.address ≢ ""
address_known e = let absurd_test : false ≡ true = (eq_iff "10.0.0.1" "").1 e in cc

sans-Covers_example :
    Covers net published (apiserver_sans net published)
    × Covers net published (konnectivity_server_sans net published)
sans-Covers_example = sans-Covers net published address_known

first_small : be_value (10 ∷ 96 ∷ 0 ∷ 0 ∷ []) + 1 < 2 ^ 32
unfolding be_value be_value_from
first_small = omega arith

add_bytes-Carries_example : Carries (255 ∷ 255 ∷ 0 ∷ []) 300
add_bytes-Carries_example = add_bytes-Carries (255 ∷ 255 ∷ 0 ∷ []) 300

secrets-Distinct_example : Distinct (
    map
      (λ (c : Certificate). c.spec.secret_name)
      (certificate_resources net published default_durations))
secrets-Distinct_example = secrets-Distinct net published default_durations

issuers_collide_example :
    ((issuer_ca (with_name_of "demo-etcd")).meta ≡ (issuer_etcd_ca sample).meta)
    × ((issuer_ca (with_name_of "demo-etcd")).config ≢ (issuer_etcd_ca sample).config)
issuers_collide_example = issuers_collide sample (with_name_of "demo-etcd") refl refl
