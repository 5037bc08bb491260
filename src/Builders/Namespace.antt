-- ===== src/Builders/Namespace.antt =====
-- pkg/resources/builders/namespace.go.
use controlplane_operator.Base.{String, List}
use controlplane_operator.Api.{ObjectMeta}
use controlplane_operator.Builders.Meta

pub record Namespace : Type 0 where
  pub meta : ObjectMeta

abbrev pub new_namespace : Namespace
new_namespace = record { meta = Meta.empty_meta }

abbrev pub with_labels : List (String × String) → Namespace → Namespace
with_labels labels n = record n { meta = Meta.with_labels labels n.meta }

abbrev pub with_annotations : List (String × String) → Namespace → Namespace
with_annotations ann n = record n { meta = Meta.with_annotations ann n.meta }

abbrev pub with_name : String → Namespace → Namespace
with_name name n = record n { meta = Meta.with_name name n.meta }

abbrev pub with_namespace : String → Namespace → Namespace
with_namespace ns n = record n { meta = Meta.with_namespace ns n.meta }

-- A deep copy has the same value.
abbrev pub build : Namespace → Namespace
build n = n
