-- ===== src/Builders/Issuer.antt =====
-- pkg/resources/builders/issuer.go. Of the issuer kinds of cert-manager, the two that the template
-- can set.
use controlplane_operator.Base.{String, List}
use controlplane_operator.Api.{ObjectMeta}
use controlplane_operator.Builders.Meta

pub data IssuerConfig : Type 0 where
  unset self_signed_issuer : IssuerConfig
  ca_issuer : String → IssuerConfig

pub record Issuer : Type 0 where
  pub meta : ObjectMeta
  pub config : IssuerConfig

abbrev pub new_issuer : Issuer
new_issuer = record { meta = Meta.empty_meta; config = unset }

abbrev pub with_labels : List (String × String) → Issuer → Issuer
with_labels labels i = record i { meta = Meta.with_labels labels i.meta }

abbrev pub with_annotations : List (String × String) → Issuer → Issuer
with_annotations ann i = record i { meta = Meta.with_annotations ann i.meta }

abbrev pub with_name : String → Issuer → Issuer
with_name name i = record i { meta = Meta.with_name name i.meta }

abbrev pub with_namespace : String → Issuer → Issuer
with_namespace ns i = record i { meta = Meta.with_namespace ns i.meta }

abbrev pub self_signed : Issuer → Issuer
self_signed i = record i { config = self_signed_issuer }

abbrev pub ca : String → Issuer → Issuer
ca secret_name i = record i { config = ca_issuer secret_name }

-- A deep copy has the same value.
abbrev pub build : Issuer → Issuer
build i = i
