-- ===== src/Builders/Certificate.antt =====
-- pkg/resources/builders/certificate.go. A Certificate's spec has the fields that the template sets;
-- durations are in nanoseconds, and a nil duration or subject is `none`.
use controlplane_operator.Base.{ℕ, String, Bool, false, Option, none, some, List, []}
use controlplane_operator.Api.{ObjectMeta}
use controlplane_operator.Builders.Meta

pub data KeyUsage : Type 0 where
  usage_digital_signature usage_key_encipherment usage_server_auth usage_client_auth : KeyUsage

pub record PrivateKey : Type 0 where
  pub algorithm : String
  pub size : ℕ
  pub rotation_policy : String

pub record IssuerReference : Type 0 where
  pub name : String
  pub kind : String

pub record CertificateSpec : Type 0 where
  pub private_key : PrivateKey
  pub secret_name : String
  pub common_name : String
  pub is_ca : Bool
  pub issuer_ref : IssuerReference
  pub duration : Option ℕ
  pub renew_before : Option ℕ
  pub usages : List KeyUsage
  pub dns_names : List String
  pub ip_addresses : List String
  pub organizations : Option (List String)

pub record Certificate : Type 0 where
  pub meta : ObjectMeta
  pub spec : CertificateSpec

abbrev pub issuer_kind : String
issuer_kind = "Issuer"

abbrev pub new_certificate : Certificate
new_certificate = record {
  meta = Meta.empty_meta;
  spec = record {
    private_key = record { algorithm = "RSA"; size = 2048; rotation_policy = "Always" };
    secret_name = "";
    common_name = "";
    is_ca = false;
    issuer_ref = record { name = ""; kind = "" };
    duration = none;
    renew_before = none;
    usages = [];
    dns_names = [];
    ip_addresses = [];
    organizations = none;
  };
}

abbrev pub with_labels : List (String × String) → Certificate → Certificate
with_labels labels c = record c { meta = Meta.with_labels labels c.meta }

abbrev pub with_annotations : List (String × String) → Certificate → Certificate
with_annotations ann c = record c { meta = Meta.with_annotations ann c.meta }

abbrev pub with_name : String → Certificate → Certificate
with_name name c = record c { meta = Meta.with_name name c.meta }

abbrev pub with_namespace : String → Certificate → Certificate
with_namespace ns c = record c { meta = Meta.with_namespace ns c.meta }

abbrev pub with_secret_name : String → Certificate → Certificate
with_secret_name secret c = let s = c.spec in record c { spec = record s { secret_name = secret } }

abbrev pub with_common_name : String → Certificate → Certificate
with_common_name cn c = let s = c.spec in record c { spec = record s { common_name = cn } }

abbrev pub is_ca : Bool → Certificate → Certificate
is_ca v c = let s = c.spec in record c { spec = record s { is_ca = v } }

abbrev pub issuer : String → Certificate → Certificate
issuer name c =
    let s = c.spec in
    record c { spec = record s { issuer_ref = record { name = name; kind = issuer_kind } } }

abbrev pub with_duration : Option ℕ → Certificate → Certificate
with_duration d c = let s = c.spec in record c { spec = record s { duration = d } }

abbrev pub with_renew_before : Option ℕ → Certificate → Certificate
with_renew_before d c = let s = c.spec in record c { spec = record s { renew_before = d } }

abbrev pub with_usages : List KeyUsage → Certificate → Certificate
with_usages usages c = let s = c.spec in record c { spec = record s { usages = usages } }

abbrev pub with_dns_names : List String → Certificate → Certificate
with_dns_names dns c = let s = c.spec in record c { spec = record s { dns_names = dns } }

abbrev pub with_ip_addresses : List String → Certificate → Certificate
with_ip_addresses ips c = let s = c.spec in record c { spec = record s { ip_addresses = ips } }

abbrev pub with_organizations : List String → Certificate → Certificate
with_organizations orgs c =
    let s = c.spec in record c { spec = record s { organizations = some orgs } }

-- A deep copy has the same value.
abbrev pub build : Certificate → Certificate
build c = c
