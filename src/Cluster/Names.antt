-- ===== src/Cluster/Names.antt =====
-- What the names that are derived from a ManagedControlPlane's name tell apart.
use Prim.Native.String.{◌++◌}
use controlplane_operator.Base.{
  String, ◌≡◌, ◌≢◌, Bool, true, not, ◌&&◌, List, [], ◌∷◌, map, All, str_eq, eq_iff, arith,
}
use text.Mathlib.TextLemmas.{append_cancel_left, append_cancel_right, append_assoc}
use controlplane_operator.Cluster.{ClusterContext, name, prefix}

-- No element stands twice.
abbrev pub Distinct {ℓ} : {A : Type ℓ} → List A → Type ℓ
Distinct [] = Unit
Distinct (x ∷ xs) = All (λ y. x ≢ y) xs × Distinct xs

abbrev pub fresh : String → List String → Bool
fresh x [] = true
fresh x (y ∷ ys) = not (str_eq x y) && fresh x ys

abbrev pub distinct : List String → Bool
distinct [] = true
distinct (x ∷ xs) = fresh x xs && distinct xs

fresh-All : (x : String) (xs : List String) → fresh x xs ≡ true → All (λ y. x ≢ y) xs
fresh-All x [] e = tt
fresh-All x (y ∷ ys) e =
    let later : fresh x ys ≡ true = ground arith in
    let apart : x ≢ y = ground (arith, eq_iff x y) in (apart, fresh-All x ys later)

pub distinct-Distinct : (xs : List String) → distinct xs ≡ true → Distinct xs
distinct-Distinct [] e = tt
distinct-Distinct (x ∷ xs) e =
    let first : fresh x xs ≡ true = ground arith in
    let later : distinct xs ≡ true = ground arith in
    (fresh-All x xs first, distinct-Distinct xs later)

-- Names of one control plane are told apart by what follows the prefix.
pub prefix_cancel_left : (cc : ClusterContext) (s t : String) → prefix cc s ≡ prefix cc t → s ≡ t
unfolding prefix
prefix_cancel_left cc s t e =
    append_cancel_left "-" s t (append_cancel_left (name cc) ("-" ++ s) ("-" ++ t) e)

-- Names of one resource are told apart by the control plane's name.
pub prefix_cancel_right :
    (cc other : ClusterContext) (s : String) → prefix cc s ≡ prefix other s → name cc ≡ name other
unfolding prefix
prefix_cancel_right cc other s e = append_cancel_right (name cc) (name other) ("-" ++ s) e

All-prefix :
    (cc : ClusterContext) (s : String) (xs : List String)
    → All (λ t. s ≢ t) xs
    → All (λ t. prefix cc s ≢ t) (map (prefix cc) xs)
All-prefix cc s [] h = tt
All-prefix cc s (x ∷ xs) h = (λ e. h.0 (prefix_cancel_left cc s x e), All-prefix cc s xs h.1)

pub Distinct-prefix :
    (cc : ClusterContext) (xs : List String) → Distinct xs → Distinct (map (prefix cc) xs)
Distinct-prefix cc [] h = tt
Distinct-prefix cc (x ∷ xs) h = (All-prefix cc x xs h.0, Distinct-prefix cc xs h.1)

-- A name that ends like the first part of a resource's suffix shifts the prefix.
pub prefix_shift :
    (cc other : ClusterContext) (part rest : String)
    → name other ≡ name cc ++ part
    → prefix other rest ≡ name cc ++ (part ++ ("-" ++ rest))
unfolding prefix
prefix_shift cc other part rest e = rw e (append_assoc (name cc) part ("-" ++ rest))
