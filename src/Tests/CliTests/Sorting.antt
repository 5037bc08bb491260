-- ===== src/Tests/CliTests/Sorting.antt =====
-- A sort of secrets by their creation that keeps what sort.Slice promises.
use mathlib.Core.List.{Permᴰ}
use mathlib.Core.List.Permᴰ as Perms
use controlplane_operator.Base.{
  ℕ, ◌≤◌, refl, Bool-cases, inl, inr, List, [], ◌∷◌, All, leb, arith, if◌then◌else◌,
}
use controlplane_operator.Tesseractl.Host.{StoredSecret, Sorted, IsSort}

unfoldable pub place : StoredSecret → List StoredSecret → List StoredSecret
place s [] = s ∷ []
place s (t ∷ ts) =
    let rest = place s ts in if leb s.created t.created then s ∷ (t ∷ ts) else t ∷ rest

unfoldable pub sort : List StoredSecret → List StoredSecret
unfolding place
sort [] = []
sort (s ∷ ss) = place s (sort ss)

place-perm : (s : StoredSecret) (ss : List StoredSecret) → Permᴰ (s ∷ ss) (place s ss)
unfolding place
place-perm s [] = Perms.refl (s ∷ [])
place-perm s (t ∷ ts) = elim (Bool-cases (leb s.created t.created)) [
  | inl e ↦ rw e (Perms.refl (s ∷ (t ∷ ts)))
  | inr e ↦ rw e (Permᴰ.trans (Permᴰ.swap refl refl) (Permᴰ.cons refl (place-perm s ts)))
]

All-place :
    (P : StoredSecret → Type 0) (s : StoredSecret) (ss : List StoredSecret)
    → P s
    → All P ss
    → All P (place s ss)
unfolding place
All-place P s [] p ps = (p, tt)
All-place P s (t ∷ ts) p ps = elim (Bool-cases (leb s.created t.created)) [
  | inl e ↦ rw e (p, ps)
  | inr e ↦ rw e (ps.0, All-place P s ts p ps.1)
]

All-above :
    (a b : ℕ) (ss : List StoredSecret)
    → a ≤ b
    → All (λ (t : StoredSecret). b ≤ t.created) ss
    → All (λ (t : StoredSecret). a ≤ t.created) ss
All-above a b [] h ps = tt
All-above a b (t ∷ ts) h ps = (omega (arith, ps.0), All-above a b ts h ps.1)

place-Sorted : (s : StoredSecret) (ss : List StoredSecret) → Sorted ss → Sorted (place s ss)
unfolding place
place-Sorted s [] h = (tt, tt)
place-Sorted s (t ∷ ts) h = elim (Bool-cases (leb s.created t.created)) [
  | inl e ↦
      let below : s.created ≤ t.created = ground arith in
      rw e ((below, All-above s.created t.created ts below h.0), h)
  | inr e ↦
      let above : t.created ≤ s.created = ground arith in
      rw e (
        All-place (λ (r : StoredSecret). t.created ≤ r.created) s ts above h.0,
        place-Sorted s ts h.1,
      )
]

sort-perm : (ss : List StoredSecret) → Permᴰ ss (sort ss)
unfolding sort
sort-perm [] = Permᴰ.nil
sort-perm (s ∷ ss) = Permᴰ.trans (Permᴰ.cons refl (sort-perm ss)) (place-perm s (sort ss))

sort-Sorted : (ss : List StoredSecret) → Sorted (sort ss)
unfolding sort
sort-Sorted [] = tt
sort-Sorted (s ∷ ss) = place-Sorted s (sort ss) (sort-Sorted ss)

pub sort-IsSort : IsSort sort
sort-IsSort = record { permutes = sort-perm; sorts = sort-Sorted }
