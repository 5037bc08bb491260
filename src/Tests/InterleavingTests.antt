-- ===== src/Tests/InterleavingTests.antt =====
-- pkg/controller/multicluster with concurrent IndexField calls, at concrete inputs: clusters and
-- indexes are numbers.
use mathlib.Core.List.Memᴰ.{head}
use controlplane_operator.Base.{
  ℕ, suc, refl, true, none, some, ok, err, not_found, List, [], ◌∷◌, insert, str_eq, nat_eq, arith,
  if◌then◌else◌,
}
use controlplane_operator.Multicluster.Interleaving.{
  take_at, System, start, make, read_lock, read_unlock, store, register, index_cluster,
}
use controlplane_operator.Multicluster.Provider.{answered, Host, new}
use controlplane_operator.Multicluster.Provider.History.{Operation, reconciles, indexes, run}
use controlplane_operator.Multicluster.Sequential.{IsIndexing, at_rest}
use controlplane_operator.Multicluster.Sequential.Runs.{run-CalmReach}
use controlplane_operator.Tests.Fixtures.{sample, missing}
use controlplane_operator.Tests.ProviderTests.{request, strange}
use controlplane_operator.Multicluster.Interleaving.Served.{Covered}
use controlplane_operator.Multicluster.Interleaving.Calm.{CalmReach, none_yet, calmly, calm-Covered}
use controlplane_operator.Multicluster.Interleaving.Missed.{Missing, index_missed}

abbrev empty : System ℕ ℕ
empty = start

abbrev entered : System ℕ ℕ
entered = record empty { clusters = ("default/demo", 7) ∷ [] }

-- A call for the index 3 after the cluster 7 is entered, before its loop and after it.
abbrev called : System ℕ ℕ
called = record entered {
  indexers = 3 ∷ [];
  calls = record { index = 3; rest = ("default/demo", 7) ∷ [] } ∷ [];
}

abbrev served : System ℕ ℕ
served = record called { calls = record { index = 3; rest = [] } ∷ []; indexed = (7, 3) ∷ [] }

enters : CalmReach empty entered
unfolding insert
enters =
    calmly
      (calmly
        (calmly (calmly none_yet (make "default/demo" 7 refl refl) (λ k c e. cc))
          (read_lock "default/demo" 7 refl refl) (λ k c e. cc))
        (read_unlock "default/demo" 7 refl refl) (λ k c e. cc))
      (store "default/demo" 7 refl refl) (λ k c e. refl)

serves : CalmReach empty served
unfolding take_at
serves =
    calmly (calmly enters (register 3 (λ k c r e. cc) refl) (λ k c e. cc))
      (index_cluster 0 0 (record { index = 3; rest = ("default/demo", 7) ∷ [] }) [] "default/demo" 7
        [] refl refl refl)
      (λ k c e. refl)

calm-Covered_example : Covered served 7 3
calm-Covered_example = calm-Covered served serves "default/demo" 7 3 (head refl) (head refl)

index_missed_example : (t : System ℕ ℕ) × Missing 7 3 "default/demo" empty t
index_missed_example =
    index_missed empty "default/demo" 7 3 refl refl (λ m. elim m [ ]) (λ k m. elim m [ ])
      (λ m. elim m [ ])

-- Clusters are numbers; the world has how many were made and which indexes they have.
abbrev Indexed : Type 0
Indexed = ℕ × List (ℕ × ℕ)

abbrev indexer : Host ℕ ℕ ℕ Indexed
indexer = record {
  get_control_plane = λ k w. if str_eq k.name "demo" then ok sample else err not_found;
  is_not_found = missing;
  is_ready = λ mcp. true;
  get_secret = λ mcp w. ok (1 ∷ 2 ∷ []);
  hash_kubeconfig = λ bytes. "hash";
  rest_config = λ bytes. ok 8;
  server_version = λ cfg w. answered;
  new_cluster = λ mcp cfg w. (ok w.0, (suc w.0, w.1));
  index_field =
      λ cl idx w. if nat_eq idx 9 then (some not_found, w) else (none, (w.0, (cl, idx) ∷ w.1));
  start = λ cl ctx w. w;
  wait_for_cache_sync = λ cl ctx w. (true, w);
  get_managed_addon = λ cl w. some not_found;
  create_managed_addon = λ cl w. (none, w);
  engage = λ ctx key cl w. (none, w);
}

abbrev seen : Indexed → List (ℕ × ℕ)
seen w = w.1

indexer-IsIndexing : IsIndexing indexer seen
indexer-IsIndexing = record {
  adds = λ cl idx w e. ground arith;
  refuses = λ cl idx w e. ground arith;
  creates = λ mcp cfg w. refl;
  starts = λ cl ctx w. refl;
  syncs = λ cl ctx w. refl;
  ensures = λ cl w. refl;
  engages = λ ctx key cl w. refl;
}

-- An index is registered, a cluster made, another index registered and one refused, and a control plane
-- that is gone reconciled.
abbrev past : List (Operation ℕ)
past = indexes 3 ∷ (reconciles request ∷ (indexes 4 ∷ (indexes 9 ∷ (reconciles strange ∷ []))))

run-CalmReach_example : CalmReach start (
    at_rest indexer seen
      (run indexer past (new indexer (0, []), [])).0
      (run indexer past (new indexer (0, []), [])).1)
run-CalmReach_example = run-CalmReach indexer seen indexer-IsIndexing past (0, []) refl
