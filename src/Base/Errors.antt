-- ===== src/Base/Errors.antt =====
-- Go's (value, error) results, and errors: those of the API server that the code tells apart, any
-- other by its text, and one wrapped by fmt.Errorf with %w.
use Prim.Native.String.{String}
use mathlib.Core.Path.{◌≡◌, refl}
use mathlib.Core.Logic.{◌⊎◌, inl, inr}
use mathlib.Core.Option.{Option, none, some}

pub data Error : Type 0 where
  not_found conflict : Error
  other : String → Error
  wrapped : String → Error → Error

pub data Result {ℓ} (A : Type ℓ) : Type ℓ where
  ok : A → Result A
  err : Error → Result A

pub Result-cases {ℓ} :
    {A : Type ℓ} (r : Result A) → ((a : A) × (r ≡ ok a)) ⊎ ((e : Error) × (r ≡ err e))
Result-cases (ok a) = inl (a, refl)
Result-cases (err e) = inr (e, refl)

-- What an effect on a world returns when it may only fail.
abbrev pub Effect : Type 0 → Type 0
Effect W = W → Option Error × W

-- `if err := e; err != nil { return fmt.Errorf(text, err) }`, and what follows it
abbrev pub after : {W : Type 0} → String → Option Error × W → Effect W → Option Error × W
after text (none, w) rest = rest w
after text (some e, w) rest = (some (wrapped text e), w)

pub effect_cases :
    {W : Type 0} (r : Option Error × W) → (r ≡ (none, r.1)) ⊎ ((e : Error) × (r ≡ (some e, r.1)))
effect_cases (none, w) = inl refl
effect_cases (some e, w) = inr (e, refl)
