-- ===== src/Multicluster/Interleaving/Missed.antt =====
-- An index that is registered while a cluster waits to be stored.
use mathlib.Core.List.{Memᴰ}
use mathlib.Core.List.Memᴰ.{head, tail}
use controlplane_operator.Base.{
  String, ◌≡◌, inl, inr, refl, sym, ap, subst, ◌∙◌, some, List, [], ◌∷◌, ◌++◌, insert, lookup,
  lookup-insert, eq_refl,
}
use controlplane_operator.Multicluster.Interleaving.{
  take_at, resting, applying, applied, System, make, read_lock, apply_indexer, read_unlock, store,
  register, index_cluster, return, Reach, here, next,
}
use controlplane_operator.Multicluster.Interleaving.Choice.{Mem-cons}

last-Mem {ℓ} : {A : Type ℓ} (xs : List A) (x : A) → Memᴰ x (xs ++ x ∷ [])
last-Mem [] x = head refl
last-Mem (y ∷ xs) x = tail (last-Mem xs x)

module _ {Cluster Index : Type 0} where
  Reach-trans : {s t u : System Cluster Index} → Reach s t → Reach t u → Reach s u
  Reach-trans a here = a
  Reach-trans a (next b st) = next (Reach-trans a b) st

  module _ (cl : Cluster) (idx : Index) (key : String) where
    -- How a run of steps ends at `t` without giving the cluster the index.
    record Leaves (s t : System Cluster Index) : Type 0 where
      reached : Reach s t
      without : Memᴰ (cl, idx) t.indexed → Memᴰ (cl, idx) s.indexed

    -- The loop of applyIndexers over other indexes.
    apply_all :
        (rest : List Index) (s : System Cluster Index)
        → s.creation ≡ applying key cl rest
        → ¬ Memᴰ idx rest
        → (ix : List (Cluster × Index)) × Leaves s
            (record s { creation = applying key cl []; indexed = ix })
    apply_all [] s at off = (
      s.indexed,
      record {
        reached = subst (λ c. Reach s (record s { creation = c })) at here;
        without = λ m. m;
      },
    )
    apply_all (x ∷ rest) s at off =
        let s' : System Cluster Index = record s {
          creation = applying key cl rest;
          indexed = (cl, x) ∷ s.indexed;
        } in
        let (ix, later) = apply_all rest s' refl (λ m. off (tail m)) in
        (
          ix,
          record {
            reached = Reach-trans (next here (apply_indexer key cl x rest at refl)) later.reached;
            without = λ m. elim (Mem-cons (later.without m)) [
              | inl e ↦ absurd (off (head (ap (λ (p : Cluster × Index). p.1) e)))
              | inr old ↦ old
            ];
          },
        )

    -- The loop of IndexField over other clusters.
    index_all :
        (rest : List (String × Cluster)) (s : System Cluster Index)
        → s.calls ≡ record { index = idx; rest = rest } ∷ []
        → ((k : String) → ¬ Memᴰ (k, cl) rest)
        → (ix : List (Cluster × Index)) × Leaves s
            (record s { calls = record { index = idx; rest = [] } ∷ []; indexed = ix })
    unfolding take_at
    index_all [] s at off = (
      s.indexed,
      record { reached = subst (λ c. Reach s (record s { calls = c })) at here; without = λ m. m },
    )
    index_all ((k, c) ∷ rest) s at off =
        let s' : System Cluster Index = record s {
          calls = record { index = idx; rest = rest } ∷ [];
          indexed = (c, idx) ∷ s.indexed;
        } in
        let (ix, later) = index_all rest s' refl (λ j m. off j (tail m)) in
        (
          ix,
          record {
            reached =
                Reach-trans
                  (next here (
                    index_cluster 0 0 (record { index = idx; rest = (k, c) ∷ rest }) [] k c rest
                      (ap (λ l. take_at 0 l) at) refl refl))
                  later.reached;
            without = λ m. elim (Mem-cons (later.without m)) [
              | inl e ↦ absurd (off k (head (ap (λ (p : Cluster × Index). (k, p.0)) e)))
              | inr old ↦ old
            ];
          },
        )

    -- The reconciler enters the cluster, both loops are over, no call is under way and none has failed.
    pub record Missing (s t : System Cluster Index) : Type 0 where
      pub reached : Reach s t
      pub known : lookup key t.clusters ≡ some cl
      pub registered : Memᴰ idx t.indexers
      pub at_rest : t.creation ≡ resting
      pub returned : t.calls ≡ []
      pub no_error : t.failed ≡ s.failed
      pub missing : ¬ Memᴰ (cl, idx) t.indexed

    -- The run that enters the cluster, with the index registered just before.
    misses :
        (s : System Cluster Index)
        → s.creation ≡ resting
        → s.calls ≡ []
        → ¬ Memᴰ idx s.indexers
        → ((k : String) → ¬ Memᴰ (k, cl) s.clusters)
        → ¬ Memᴰ (cl, idx) s.indexed
        → (t : System Cluster Index) × Missing s t
    unfolding take_at
    misses s rests idle new fresh bare =
        let s1 : System Cluster Index = record s { creation = applying key cl s.indexers } in
        let (ix, first) = apply_all s.indexers s1 refl new in
        let s2 : System Cluster Index = record s {
          creation = applied key cl;
          indexed = ix;
          indexers = s.indexers ++ idx ∷ [];
          calls = record { index = idx; rest = s.clusters } ∷ [];
        } in
        let (jx, second) = index_all s.clusters s2 refl fresh in
        let s3 : System Cluster Index = record s2 {
          calls = record { index = idx; rest = [] } ∷ [];
          indexed = jx;
        } in
        let s4 : System Cluster Index = record s3 {
          calls = [];
          creation = resting;
          clusters = insert key cl s.clusters;
        } in
        let begins : Reach s s1 =
          next (next here (make key cl rests refl)) (read_lock key cl refl refl) in
        let waits : Reach s1 s2 = next (next first.reached (read_unlock key cl refl refl)) (
          register idx (λ k c r e. cc)
            (ap (λ l. record s2 { calls = record { index = idx; rest = s.clusters } ∷ l })
              (sym idle))) in
        let closes : Reach s3 s4 =
          next (next here (return 0 (record { index = idx; rest = [] }) [] refl refl refl))
            (store key cl refl refl) in
        (
          s4,
          record {
            reached = Reach-trans begins (Reach-trans waits (Reach-trans second.reached closes));
            known = lookup-insert key key cl s.clusters ∙ rw (eq_refl key) refl;
            registered = last-Mem s.indexers idx;
            at_rest = refl;
            returned = refl;
            no_error = refl;
            missing = λ m. bare (first.without (second.without m));
          },
        )

-- From any state in which nothing is under way, a cluster can be created and an index registered with
-- no error, and the cluster that is then known does not have that index: IndexField was called after
-- applyIndexers, and copied the clusters before this one was entered.
pub index_missed :
    {Cluster Index : Type 0} (s : System Cluster Index) (key : String) (cl : Cluster) (idx : Index)
    → s.creation ≡ resting
    → s.calls ≡ []
    → ¬ Memᴰ idx s.indexers
    → ((k : String) → ¬ Memᴰ (k, cl) s.clusters)
    → ¬ Memᴰ (cl, idx) s.indexed
    → (t : System Cluster Index) × Missing cl idx key s t
index_missed s key cl idx rests idle new fresh bare = misses cl idx key s rests idle new fresh bare
