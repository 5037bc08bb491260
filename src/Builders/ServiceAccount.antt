-- ===== src/Builders/ServiceAccount.antt =====
-- pkg/resources/builders/serviceaccount.go.
use controlplane_operator.Base.{String, List}
use controlplane_operator.Api.{ObjectMeta}
use controlplane_operator.Builders.Meta

pub record ServiceAccount : Type 0 where
  pub meta : ObjectMeta

abbrev pub new_service_account : ServiceAccount
new_service_account = record { meta = Meta.empty_meta }

abbrev pub with_labels : List (String × String) → ServiceAccount → ServiceAccount
with_labels labels s = record s { meta = Meta.with_labels labels s.meta }

abbrev pub with_annotations : List (String × String) → ServiceAccount → ServiceAccount
with_annotations ann s = record s { meta = Meta.with_annotations ann s.meta }

abbrev pub with_name : String → ServiceAccount → ServiceAccount
with_name name s = record s { meta = Meta.with_name name s.meta }

abbrev pub with_namespace : String → ServiceAccount → ServiceAccount
with_namespace ns s = record s { meta = Meta.with_namespace ns s.meta }

-- A deep copy has the same value.
abbrev pub build : ServiceAccount → ServiceAccount
build s = s
