-- ===== src/Multicluster/Interleaving/Served/Calls.antt =====
-- What the steps of the IndexField calls do to the clusters that have indexes.
use mathlib.Core.List.{Memᴰ}
use mathlib.Core.List.Memᴰ.{head, tail}
use controlplane_operator.Base.{
  ℕ, String, ◌≡◌, ◌≢◌, inl, inr, refl, sym, ap, subst, ◌∙◌, some, List, [], ◌∷◌, ◌++◌,
}
use controlplane_operator.Multicluster.Interleaving.{take_at, applying, applied, Call, System}
use controlplane_operator.Multicluster.Interleaving.Choice.{take_at-Mem, Mem-append}
use controlplane_operator.Multicluster.Interleaving.Served.{
  Owed, Covered, has, owed, reported, Served, Owed-moved, covered_by,
}

module _ {Cluster Index : Type 0} (s : System Cluster Index) (ok : Served s) where
  pub registers :
      (x : Index)
      → ((key : String) (cl : Cluster) (rest : List Index) → s.creation ≢ applying key cl rest)
      → ((key : String) (cl : Cluster)
          → s.creation ≡ applied key cl
          → s.indexers ++ x ∷ [] ≡ s.indexers)
      → Served (record s {
        indexers = s.indexers ++ x ∷ [];
        calls = record { index = x; rest = s.clusters } ∷ s.calls;
      })
  registers x free quiet = record {
    stored = λ k c idx m i. elim (Mem-append s.indexers x idx i) [
      | inl old ↦
          covered_by s _ c idx (λ j. j)
            (λ (o : Owed s.calls c idx). owed (Owed-moved o (tail o.under_way))) (λ j. j)
            (ok.stored k c idx m old)
      | inr new ↦
          owed (record { call = _; key = k; under_way = head refl; same = sym new; ahead = m })
    ];
    in_loop = λ k c r idx e i. absurd (free k c r e);
    after_loop = λ k c idx e i. ok.after_loop k c idx e (subst (λ l. Memᴰ idx l) (quiet k c e) i);
  }

  -- What an IndexField call owes after it has served one of its clusters.
  owes :
      (i j : ℕ) (call : Call Cluster Index) (others : List (Call Cluster Index)) (key : String)
      (cl : Cluster) (rest : List (String × Cluster)) (c : Cluster) (idx : Index)
      → take_at i s.calls ≡ some (call, others)
      → take_at j call.rest ≡ some ((key, cl), rest)
      → Owed s.calls c idx
      → Covered
          (record s {
            calls = record { index = call.index; rest = rest } ∷ others;
            indexed = (cl, call.index) ∷ s.indexed;
          })
          c
          idx
  owes i j call others key cl rest c idx ei ej o =
      elim (take_at-Mem i s.calls call others o.call ei o.under_way) [
        | inr other ↦ owed (Owed-moved o (tail other))
        | inl this ↦
            let index_same : call.index ≡ idx =
              ap (λ (x : Call Cluster Index). x.index) (sym this) ∙ o.same in
            let ahead : Memᴰ (o.key, c) call.rest =
              subst (λ (x : Call Cluster Index). Memᴰ (o.key, c) x.rest) this o.ahead in
            elim (take_at-Mem j call.rest (key, cl) rest (o.key, c) ej ahead) [
              | inl now ↦ has (
                  head (
                    ap (λ (p : String × Cluster). (p.1, idx)) now
                    ∙ ap (λ v. (cl, v)) (sym index_same)))
              | inr later ↦ owed (record {
                call = _;
                key = o.key;
                under_way = head refl;
                same = index_same;
                ahead = later;
              })
            ]
      ]

  pub indexes :
      (i j : ℕ) (call : Call Cluster Index) (others : List (Call Cluster Index)) (key : String)
      (cl : Cluster) (rest : List (String × Cluster))
      → take_at i s.calls ≡ some (call, others)
      → take_at j call.rest ≡ some ((key, cl), rest)
      → Served (record s {
        calls = record { index = call.index; rest = rest } ∷ others;
        indexed = (cl, call.index) ∷ s.indexed;
      })
  indexes i j call others key cl rest ei ej = record {
    stored = λ k c idx m n.
        covered_by s _ c idx tail (owes i j call others key cl rest c idx ei ej) (λ x. x)
          (ok.stored k c idx m n);
    in_loop =
        λ k c r idx e n. elim (ok.in_loop k c r idx e n) [ inl x ↦ inl (tail x) | inr x ↦ inr x ];
    after_loop = λ k c idx e n. tail (ok.after_loop k c idx e n);
  }

  -- A call that ends owes nothing, or its index is among the failed ones.
  pub ends :
      (i : ℕ) (call : Call Cluster Index) (others : List (Call Cluster Index)) (failed : List Index)
      → take_at i s.calls ≡ some (call, others)
      → ((idx : Index) → Memᴰ idx s.failed → Memᴰ idx failed)
      → ((c : Cluster) (idx : Index) (key : String)
          → call.index ≡ idx
          → Memᴰ (key, c) call.rest
          → Memᴰ idx failed)
      → Served (record s { calls = others; failed = failed })
  ends i call others failed ei more dropped = record {
    stored = λ k c idx m n.
        covered_by s _ c idx (λ x. x)
          (λ (o : Owed s.calls c idx).
            elim (take_at-Mem i s.calls call others o.call ei o.under_way) [
              | inr other ↦ owed (Owed-moved o other)
              | inl this ↦ reported (
                  dropped c idx o.key (ap (λ (x : Call Cluster Index). x.index) (sym this) ∙ o.same)
                    (subst (λ (x : Call Cluster Index). Memᴰ (o.key, c) x.rest) this o.ahead))
            ])
          (more idx) (ok.stored k c idx m n);
    in_loop = ok.in_loop;
    after_loop = ok.after_loop;
  }
