-- ===== src/Utils/Text/Merge.antt =====
-- MergeStringMap: the destination, overwritten by the source.
use controlplane_operator.Base.{
  String, ◌≡◌, refl, ◌∙◌, Option, none, some, inl, inr, List, [], ◌∷◌, lookup, insert,
  lookup-insert, Unique, Unique-insert, str_eq, eq_iff, arith, Bool-cases,
}
use controlplane_operator.Utils.Text.{merge_into, merge_string_map}

abbrev pub or_else : Option String → Option String → Option String
or_else (some v) later = some v
or_else none later = later

lookup-merge_into :
    (k : String) (dst src : List (String × String))
    → Unique src
    → lookup k (merge_into dst src) ≡ or_else (lookup k src) (lookup k dst)
unfolding merge_into lookup
lookup-merge_into k dst [] u = refl
lookup-merge_into k dst ((j, v) ∷ src) (absent, u) =
    lookup-merge_into k (insert j v dst) src u ∙ (elim (Bool-cases (str_eq j k)) [
      | inl same ↦
          let gone : lookup k src ≡ none = rw ((eq_iff j k).0 same) at absent in
          ground (arith, lookup-insert j k v dst)
      | inr other ↦ ground (arith, lookup-insert j k v dst)
    ])

Unique-merge_into : (dst src : List (String × String)) → Unique dst → Unique (merge_into dst src)
unfolding merge_into
Unique-merge_into dst [] u = u
Unique-merge_into dst ((j, v) ∷ src) u =
    Unique-merge_into (insert j v dst) src (Unique-insert j v dst u)

-- What a map that may be nil has at a key.
abbrev pub entry : String → Option (List (String × String)) → Option String
entry k none = none
entry k (some m) = lookup k m

abbrev pub UniqueMap : Option (List (String × String)) → Type 0
UniqueMap none = Unit
UniqueMap (some m) = Unique m

-- The merged map has at each key the source's entry, or else the destination's; it has no key twice.
pub merge_string_map_overrides :
    (dst src : Option (List (String × String))) (k : String)
    → UniqueMap dst
    → UniqueMap src
    → (entry k (merge_string_map dst src) ≡ or_else (entry k src) (entry k dst))
      × UniqueMap (merge_string_map dst src)
unfolding merge_string_map lookup
merge_string_map_overrides none none k u v = (refl, tt)
merge_string_map_overrides none (some src) k u v =
    (lookup-merge_into k [] src v, Unique-merge_into [] src tt)
merge_string_map_overrides (some dst) none k u v = (refl, u)
merge_string_map_overrides (some dst) (some src) k u v =
    (lookup-merge_into k dst src v, Unique-merge_into dst src u)
