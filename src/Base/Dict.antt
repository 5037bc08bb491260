-- ===== src/Base/Dict.antt =====
-- Go maps with string keys, as association lists: `insert` overwrites in place, so a key that is
-- present keeps its position.
use Prim.Native.String.{String}
use mathlib.Core.Path.{◌≡◌, refl}
use mathlib.Core.Bool.{Bool}
use mathlib.Core.Logic.{inl, inr}
use mathlib.Core.Option.{Option, none, some}
use mathlib.Core.List.{List, [], ◌∷◌}
use text.Mathlib.Text.{◌==◌}
use text.Mathlib.TextEquality.{eq_iff}
use native.Mathlib.Omega.{arith}
use controlplane_operator.Base.Tests.{if◌then◌else◌, Bool-cases}

abbrev pub str_eq : String → String → Bool
str_eq s t = s == t

-- A test for the key that the recursion looks for.
abbrev same_key : String → String → Bool
same_key mine wanted = str_eq mine wanted

module _ {ℓ} {V : Type ℓ} where
  unfoldable pub erase : String → List (String × V) → List (String × V)
  erase key [] = []
  erase key ((mine, held) ∷ rest) =
      let others = erase key rest in if same_key mine key then others else (mine, held) ∷ others

  unfoldable pub insert : String → V → List (String × V) → List (String × V)
  insert key new [] = (key, new) ∷ []
  insert key new ((mine, held) ∷ rest) =
      let others = insert key new rest in
      if same_key mine key then (key, new) ∷ rest else (mine, held) ∷ others

  unfoldable pub lookup : String → List (String × V) → Option V
  lookup key [] = none
  lookup key ((mine, held) ∷ rest) =
      let later = lookup key rest in if same_key mine key then some held else later

  -- A key that was written reads as what was written, any other as before.
  pub lookup-insert :
      (key asked : String) (new : V) (dict : List (String × V))
      → lookup asked (insert key new dict)
        ≡ (if same_key key asked then some new else lookup asked dict)
  unfolding insert lookup
  lookup-insert key asked new [] = refl
  lookup-insert key asked new ((mine, held) ∷ rest) =
      let before = lookup-insert key asked new rest in
      ground (arith, before, eq_iff mine key, eq_iff mine asked, eq_iff key asked)

  pub lookup-erase :
      (k j : String) (m : List (String × V))
      → lookup j (erase k m) ≡ (if k == j then none else lookup j m)
  unfolding lookup erase
  lookup-erase k j [] = ground arith
  lookup-erase k j ((i, w) ∷ m) =
      ground (arith, eq_iff k j, eq_iff i k, eq_iff i j, lookup-erase k j m)

  -- No key stands twice.
  abbrev pub Unique : List (String × V) → Type ℓ
  Unique [] = Unit
  Unique ((k, v) ∷ m) = (lookup k m ≡ none) × Unique m

  pub Unique-insert :
      (k : String) (v : V) (m : List (String × V)) → Unique m → Unique (insert k v m)
  unfolding lookup insert
  Unique-insert k v [] u = (refl, tt)
  Unique-insert k v ((j, w) ∷ m) (absent, u) = elim (Bool-cases (j == k)) [
    | inl same ↦ rw same (rw ((eq_iff j k).0 same) at absent, u)
    | inr other ↦
        rw other
          (ground (arith, lookup-insert k j v m, eq_iff k j, eq_iff j k), Unique-insert k v m u)
  ]

  pub Unique-erase : (k : String) (m : List (String × V)) → Unique m → Unique (erase k m)
  unfolding erase
  Unique-erase k [] u = tt
  Unique-erase k ((j, w) ∷ m) (absent, u) = elim (Bool-cases (j == k)) [
    | inl same ↦ rw same (Unique-erase k m u)
    | inr other ↦
        rw other (ground (arith, lookup-erase k j m, eq_iff k j, eq_iff j k), Unique-erase k m u)
  ]

  pub erase_absent : (k : String) (m : List (String × V)) → lookup k m ≡ none → erase k m ≡ m
  unfolding lookup erase
  erase_absent k [] e = refl
  erase_absent k ((j, w) ∷ m) e = ground (arith, erase_absent k m)
