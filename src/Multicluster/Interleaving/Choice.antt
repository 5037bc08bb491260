-- ===== src/Multicluster/Interleaving/Choice.antt =====
-- Which elements a list has after one is taken out, added or overwritten.
use mathlib.Core.List.{Memᴰ}
use mathlib.Core.List.Memᴰ.{head, tail}
use controlplane_operator.Base.{
  ℕ, zero, suc, String, ◌≡◌, ◌⊎◌, inl, inr, ap, subst, ◌∙◌, Bool-cases, Option, Option-cases, none,
  some, List, [], ◌∷◌, ◌++◌, insert, erase, str_eq,
}
use controlplane_operator.Multicluster.Interleaving.{take_at}

pub Mem-cons {ℓ} : {A : Type ℓ} {z x : A} {xs : List A} → Memᴰ z (x ∷ xs) → (z ≡ x) ⊎ Memᴰ z xs
Mem-cons (head e) = inl e
Mem-cons (tail m) = inr m

take_at_later {ℓ} :
    {A : Type ℓ} (n : ℕ) (w x : A) (xs ys : List A)
    → take_at (suc n) (w ∷ xs) ≡ some (x, ys)
    → (ys' : List A) × (take_at n xs ≡ some (x, ys')) × (w ∷ ys' ≡ ys)
unfolding take_at
take_at_later {A} n w x xs ys e = elim (Option-cases (take_at n xs)) [
  | inl absent ↦
      let clash : ◌≡◌ {A = Option (A × List A)} none (some (x, ys)) = rw (take_at, absent) at e in
      cc
  | inr ((y, ys'), found) ↦
      let eq : ◌≡◌ {A = Option (A × List A)} (some (y, w ∷ ys')) (some (x, ys)) =
        rw (take_at, found) at e in
      let same : y ≡ x = cc in
      let left : w ∷ ys' ≡ ys = cc in (ys', found ∙ ap (λ v. some (v, ys')) same, left)
]

pub take_at-Mem {ℓ} :
    {A : Type ℓ} (n : ℕ) (xs : List A) (x : A) (ys : List A) (z : A)
    → take_at n xs ≡ some (x, ys)
    → Memᴰ z xs
    → (z ≡ x) ⊎ Memᴰ z ys
unfolding take_at
take_at-Mem n [] x ys z e m = elim m [ ]
take_at-Mem zero (w ∷ xs) x ys z e (head same) = inl (let eq : w ≡ x = cc in same ∙ eq)
take_at-Mem zero (w ∷ xs) x ys z e (tail m) =
    inr (let eq : xs ≡ ys = cc in subst (λ l. Memᴰ z l) eq m)
take_at-Mem (suc n) (w ∷ xs) x ys z e m =
    let (ys', found, whole) = take_at_later n w x xs ys e in
    elim (Mem-cons m) [
      | inl same ↦ inr (subst (λ l. Memᴰ z l) whole (head same))
      | inr deep ↦ elim (take_at-Mem n xs x ys' z found deep) [
        | inl same ↦ inl same
        | inr left ↦ inr (subst (λ l. Memᴰ z l) whole (tail left))
      ]
    ]

pub Mem-append {ℓ} :
    {A : Type ℓ} (xs : List A) (y z : A) → Memᴰ z (xs ++ y ∷ []) → Memᴰ z xs ⊎ (z ≡ y)
Mem-append [] y z (head e) = inr e
Mem-append [] y z (tail m) = elim m [ ]
Mem-append (x ∷ xs) y z (head e) = inl (head e)
Mem-append (x ∷ xs) y z (tail m) = elim (Mem-append xs y z m) [
  | inl k ↦ inl (tail k)
  | inr e ↦ inr e
]

module _ {Cluster : Type 0} where
  pub Mem-insert :
      (key : String) (cl : Cluster) (m : List (String × Cluster)) (z : String × Cluster)
      → Memᴰ z (insert key cl m)
      → (z ≡ (key, cl)) ⊎ Memᴰ z m
  unfolding insert
  Mem-insert key cl [] z i = Mem-cons i
  Mem-insert key cl ((k, c) ∷ m) z i = elim (Bool-cases (str_eq k key)) [
    | inl same ↦
        let j : Memᴰ z ((key, cl) ∷ m) = rw same at i in
        elim (Mem-cons j) [ inl e ↦ inl e | inr old ↦ inr (tail old) ]
    | inr off ↦
        let j : Memᴰ z ((k, c) ∷ insert key cl m) = rw off at i in
        elim (Mem-cons j) [
          | inl e ↦ inr (head e)
          | inr deep ↦ elim (Mem-insert key cl m z deep) [
            | inl e ↦ inl e
            | inr old ↦ inr (tail old)
          ]
        ]
  ]

  pub Mem-erase :
      (key : String) (m : List (String × Cluster)) (z : String × Cluster)
      → Memᴰ z (erase key m)
      → Memᴰ z m
  unfolding erase
  Mem-erase key [] z i = i
  Mem-erase key ((k, c) ∷ m) z i = elim (Bool-cases (str_eq k key)) [
    | inl same ↦ let j : Memᴰ z (erase key m) = rw same at i in tail (Mem-erase key m z j)
    | inr off ↦
        let j : Memᴰ z ((k, c) ∷ erase key m) = rw off at i in
        elim (Mem-cons j) [ inl e ↦ head e | inr deep ↦ tail (Mem-erase key m z deep) ]
  ]
