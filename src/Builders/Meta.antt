-- ===== src/Builders/Meta.antt =====
-- pkg/resources/builders/builder.go, `MetaMutator`.
use controlplane_operator.Base.{
  String, ◌≡◌, Option, none, some, List, [], str_eq, eq_iff, arith, if◌then◌else◌,
}
use controlplane_operator.Api.{ObjectMeta}
use controlplane_operator.Utils.Text.{merge_into}

abbrev pub empty_meta : ObjectMeta
empty_meta = record {
  name = "";
  namespace = "";
  labels = none;
  annotations = none;
  generation = 0;
  deletion_timestamp = none;
  finalizers = [];
}

-- The map itself, an empty one for nil.
abbrev pub or_empty : Option (List (String × String)) → List (String × String)
or_empty none = []
or_empty (some l) = l

unfoldable pub with_labels : List (String × String) → ObjectMeta → ObjectMeta
with_labels labels m = record m { labels = some (merge_into (or_empty m.labels) labels) }

unfoldable pub with_annotations : List (String × String) → ObjectMeta → ObjectMeta
with_annotations ann m = record m { annotations = some (merge_into (or_empty m.annotations) ann) }

unfoldable pub with_name : String → ObjectMeta → ObjectMeta
with_name name m = if str_eq name "" then m else record m { name = name }

unfoldable pub with_namespace : String → ObjectMeta → ObjectMeta
with_namespace ns m = if str_eq ns "" then m else record m { namespace = ns }

-- On a new object the guards change nothing: the object has the name and the namespace.
pub with_namespace-with_name :
    (name ns : String)
    → with_namespace ns (with_name name empty_meta)
      ≡ record empty_meta { name = name; namespace = ns }
unfolding with_name with_namespace
with_namespace-with_name name ns = ground (arith, eq_iff name "", eq_iff ns "")
