-- ===== src/Multicluster/Interleaving/Calm.antt =====
-- Every cluster has every index, as long as none is registered while a cluster waits to be stored.
use mathlib.Core.List.{Memᴰ}
use mathlib.Core.List.Memᴰ.{head, tail}
use controlplane_operator.Base.{String, ◌≡◌, sym, ap, subst, ◌∙◌, [], ◌∷◌}
use controlplane_operator.Multicluster.Interleaving.{
  made, applied, System, start, Step, make, read_lock, apply_indexer, apply_fails, read_unlock,
  sync_fails, store, remove, register, index_cluster, index_fails, return,
}
use controlplane_operator.Multicluster.Interleaving.Served.{
  Covered, Served, moves, rests, reads, applies, unlocks, stores, removes,
}
use controlplane_operator.Multicluster.Interleaving.Served.Calls.{registers, indexes, ends}

module _ {Cluster Index : Type 0} where
  -- While a cluster waits to be stored, no index is registered.
  abbrev pub Quiet : System Cluster Index → System Cluster Index → Type 0
  Quiet s t = (key : String) (cl : Cluster) → s.creation ≡ applied key cl → t.indexers ≡ s.indexers

  pub data CalmReach (s : System Cluster Index) : System Cluster Index → Type 0 where
    none_yet : CalmReach s s
    calmly : {t u : System Cluster Index} → CalmReach s t → Step t u → Quiet t u → CalmReach s u

  Served-along : (s t : System Cluster Index) → t ≡ s → Served s → Served t
  Served-along s t e = subst Served (sym e)

  Step-Served : (s t : System Cluster Index) → Step s t → Quiet s t → Served s → Served t
  Step-Served s t (make key cl at e) q ok =
      Served-along _ t e (moves s ok (made key cl) (λ k c r idx x i. cc) (λ k c idx x i. cc))
  Step-Served s t (read_lock key cl at e) q ok = Served-along _ t e (reads s ok key cl)
  Step-Served s t (apply_indexer key cl idx rest at e) q ok =
      Served-along _ t e (applies s ok key cl idx rest at)
  Step-Served s t (apply_fails key cl rest at e) q ok = Served-along _ t e (rests s ok)
  Step-Served s t (read_unlock key cl at e) q ok = Served-along _ t e (unlocks s ok key cl at)
  Step-Served s t (sync_fails key cl at e) q ok = Served-along _ t e (rests s ok)
  Step-Served s t (store key cl at e) q ok = Served-along _ t e (stores s ok key cl at)
  Step-Served s t (remove key at e) q ok = Served-along _ t e (removes s ok key)
  Step-Served s t (register idx free e) q ok = Served-along _ t e (
      registers s ok idx free
        (λ key cl at. sym (ap (λ (x : System Cluster Index). x.indexers) e) ∙ q key cl at))
  Step-Served s t (index_cluster i j c others key cl rest ei ej e) q ok =
      Served-along _ t e (indexes s ok i j c others key cl rest ei ej)
  Step-Served s t (index_fails i c others ei e) q ok = Served-along _ t e (
      ends s ok i c others (c.index ∷ s.failed) ei (λ idx m. tail m)
        (λ cl idx key same m. head (sym same)))
  Step-Served s t (return i c others ei empty e) q ok = Served-along _ t e (
      ends s ok i c others s.failed ei (λ idx m. m)
        (λ cl idx key same m.
          let nothing : Memᴰ (key, cl) [] = subst (λ l. Memᴰ (key, cl) l) empty m in
          elim nothing [ ]))

  start-Served : Served {Cluster = Cluster} {Index = Index} start
  start-Served = record {
    stored = λ key cl idx m i. elim m [ ];
    in_loop = λ key cl rest idx e i. cc;
    after_loop = λ key cl idx e i. cc;
  }

  CalmReach-Served : {s t : System Cluster Index} → CalmReach s t → Served s → Served t
  CalmReach-Served none_yet ok = ok
  CalmReach-Served (calmly {t} {u} r st q) ok = Step-Served t u st q (CalmReach-Served r ok)

  -- Whatever the interleaving of the reconciler with any number of IndexField calls, as long as no index
  -- is registered between the end of applyIndexers and the entry of the cluster: every cluster that is
  -- known has every index that was registered, unless an IndexField call for that index is still under way
  -- or has returned an error.
  pub calm-Covered :
      (s : System Cluster Index)
      → CalmReach start s
      → (key : String) (cl : Cluster) (idx : Index) → Memᴰ (key, cl) s.clusters
      → Memᴰ idx s.indexers
      → Covered s cl idx
  calm-Covered s r key cl idx m i = (CalmReach-Served r start-Served).stored key cl idx m i
