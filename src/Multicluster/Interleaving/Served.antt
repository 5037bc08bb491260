-- ===== src/Multicluster/Interleaving/Served.antt =====
-- Which clusters have which indexes at each point of an interleaving, and what the steps of the
-- reconciler do to that.
pub mod Calls
use mathlib.Core.List.{Memᴰ}
use mathlib.Core.List.Memᴰ.{head, tail}
use controlplane_operator.Base.{
  ℕ, String, ◌≡◌, ◌≢◌, ◌⊎◌, inl, inr, refl, sym, ap, subst, ◌∙◌, some, List, [], ◌∷◌, ◌++◌, insert,
  erase,
}
use controlplane_operator.Multicluster.Interleaving.{
  take_at, Creation, resting, applying, applied, Call, System,
}
use controlplane_operator.Multicluster.Interleaving.Choice.{
  take_at-Mem, Mem-cons, Mem-append, Mem-insert, Mem-erase,
}

module _ {Cluster Index : Type 0} where
  -- An IndexField call under way still has the cluster before it.
  pub record Owed (calls : List (Call Cluster Index)) (cl : Cluster) (idx : Index) : Type 0 where
    pub call : Call Cluster Index
    pub key : String
    pub under_way : Memᴰ call calls
    pub same : call.index ≡ idx
    pub ahead : Memᴰ (key, cl) call.rest

  pub data Covered (s : System Cluster Index) (cl : Cluster) (idx : Index) : Type 0 where
    has : Memᴰ (cl, idx) s.indexed → Covered s cl idx
    owed : Owed s.calls cl idx → Covered s cl idx
    reported : Memᴰ idx s.failed → Covered s cl idx

  pub record Served (s : System Cluster Index) : Type 0 where
    pub stored :
        (key : String) (cl : Cluster) (idx : Index)
        → Memᴰ (key, cl) s.clusters
        → Memᴰ idx s.indexers
        → Covered s cl idx
    pub in_loop :
        (key : String) (cl : Cluster) (rest : List Index) (idx : Index)
        → s.creation ≡ applying key cl rest
        → Memᴰ idx s.indexers
        → Memᴰ (cl, idx) s.indexed ⊎ Memᴰ idx rest
    pub after_loop :
        (key : String) (cl : Cluster) (idx : Index)
        → s.creation ≡ applied key cl
        → Memᴰ idx s.indexers
        → Memᴰ (cl, idx) s.indexed

  -- A call that is still under way owes what it owed.
  pub Owed-moved :
      {calls more : List (Call Cluster Index)} {cl : Cluster} {idx : Index} (o : Owed calls cl idx)
      → Memᴰ o.call more
      → Owed more cl idx
  Owed-moved o under_way = record {
    call = o.call;
    key = o.key;
    under_way = under_way;
    same = o.same;
    ahead = o.ahead;
  }

  -- What was covered stays covered when the indexed pairs, the calls and the failures only grow.
  pub covered_by :
      (s t : System Cluster Index) (cl : Cluster) (idx : Index)
      → (Memᴰ (cl, idx) s.indexed → Memᴰ (cl, idx) t.indexed)
      → (Owed s.calls cl idx → Covered t cl idx)
      → (Memᴰ idx s.failed → Memᴰ idx t.failed)
      → Covered s cl idx
      → Covered t cl idx
  covered_by s t cl idx a b c (has m) = has (a m)
  covered_by s t cl idx a b c (owed o) = b o
  covered_by s t cl idx a b c (reported m) = reported (c m)

  -- The reconciler's steps leave the calls and the failures alone.
  creation_step :
      (s : System Cluster Index) (cr : Creation Cluster Index) (cl : Cluster) (idx : Index)
      → Covered s cl idx
      → Covered (record s { creation = cr }) cl idx
  creation_step s cr cl idx c = covered_by s _ cl idx (λ m. m) owed (λ m. m) c

  module _ (s : System Cluster Index) (ok : Served s) where
    -- A step to a point outside the loop and the wait.
    pub moves :
        (cr : Creation Cluster Index)
        → ((key : String) (cl : Cluster) (rest : List Index) (idx : Index)
            → cr ≡ applying key cl rest
            → Memᴰ idx s.indexers
            → Memᴰ (cl, idx) s.indexed ⊎ Memᴰ idx rest)
        → ((key : String) (cl : Cluster) (idx : Index)
            → cr ≡ applied key cl
            → Memᴰ idx s.indexers
            → Memᴰ (cl, idx) s.indexed)
        → Served (record s { creation = cr })
    moves cr a b = record {
      stored = λ key cl idx m i. creation_step s cr cl idx (ok.stored key cl idx m i);
      in_loop = a;
      after_loop = b;
    }

    pub rests : Served (record s { creation = resting })
    rests = moves resting (λ key cl rest idx e i. cc) (λ key cl idx e i. cc)

    pub reads :
        (key : String) (cl : Cluster) → Served (record s { creation = applying key cl s.indexers })
    reads key cl =
        moves _
          (λ key' cl' rest idx e i.
            let same : s.indexers ≡ rest = cc in inr (subst (λ l. Memᴰ idx l) same i))
          (λ key' cl' idx e i. cc)

    pub applies :
        (key : String) (cl : Cluster) (x : Index) (rest : List Index)
        → s.creation ≡ applying key cl (x ∷ rest)
        → Served (record s { creation = applying key cl rest; indexed = (cl, x) ∷ s.indexed })
    applies key cl x rest at = record {
      stored = λ k c idx m i. covered_by s _ c idx tail owed (λ j. j) (ok.stored k c idx m i);
      in_loop = λ k c r idx e i.
          let cluster : cl ≡ c = cc in
          let left : rest ≡ r = cc in
          elim (ok.in_loop key cl (x ∷ rest) idx at i) [
            | inl m ↦ inl (tail (subst (λ v. Memᴰ (v, idx) s.indexed) cluster m))
            | inr m ↦ elim (Mem-cons m) [
              | inl same ↦ inl (head (ap (λ v. (v, idx)) (sym cluster) ∙ ap (λ v. (cl, v)) same))
              | inr deep ↦ inr (subst (λ l. Memᴰ idx l) left deep)
            ]
          ];
      after_loop = λ k c idx e i. cc;
    }

    pub unlocks :
        (key : String) (cl : Cluster)
        → s.creation ≡ applying key cl []
        → Served (record s { creation = applied key cl })
    unlocks key cl at =
        moves _ (λ k c r idx e i. cc)
          (λ k c idx e i.
            let cluster : cl ≡ c = cc in
            elim (ok.in_loop key cl [] idx at i) [
              | inl m ↦ subst (λ v. Memᴰ (v, idx) s.indexed) cluster m
              | inr none_left ↦ elim none_left [ ]
            ])

    pub stores :
        (key : String) (cl : Cluster)
        → s.creation ≡ applied key cl
        → Served (record s { creation = resting; clusters = insert key cl s.clusters })
    stores key cl at = record {
      stored = λ k c idx m i. elim (Mem-insert key cl s.clusters (k, c) m) [
        | inl new ↦ has (
            subst (λ v. Memᴰ (v, idx) s.indexed) (sym (ap (λ p. p.1) new))
              (ok.after_loop key cl idx at i))
        | inr old ↦ covered_by s _ c idx (λ j. j) owed (λ j. j) (ok.stored k c idx old i)
      ];
      in_loop = λ k c r idx e i. cc;
      after_loop = λ k c idx e i. cc;
    }

    pub removes : (key : String) → Served (record s { clusters = erase key s.clusters })
    removes key = record {
      stored = λ k c idx m i.
          covered_by s _ c idx (λ j. j) owed (λ j. j)
            (ok.stored k c idx (Mem-erase key s.clusters (k, c) m) i);
      in_loop = ok.in_loop;
      after_loop = ok.after_loop;
    }
