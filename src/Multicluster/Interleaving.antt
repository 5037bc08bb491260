-- ===== src/Multicluster/Interleaving.antt =====
-- pkg/controller/multicluster/provider.go with IndexField called from another goroutine while a cluster
-- is created. A step is what happens between two operations on the lock; any number of IndexField calls
-- are under way, and the one reconciler is at a point of createAndEngageCluster.
pub mod Choice
pub mod Served
pub mod Calm
pub mod Missed
use controlplane_operator.Base.{
  ℕ, zero, suc, String, ◌≡◌, ◌≢◌, Option, none, some, List, [], ◌∷◌, ◌++◌, insert, erase, map,
}

-- The n-th element and the others: which one comes next is not determined.
unfoldable pub take_at {ℓ} : {A : Type ℓ} → ℕ → List A → Option (A × List A)
take_at n [] = none
take_at zero (x ∷ xs) = some (x, xs)
take_at (suc n) (x ∷ xs) = elim (take_at n xs) [ none ↦ none | some (y, ys) ↦ some (y, x ∷ ys) ]

-- Where the reconciler stands in createAndEngageCluster.
pub data Creation (Cluster Index : Type 0) : Type 0 where
  -- It creates no cluster.
  resting : Creation Cluster Index
  -- NewCluster has answered.
  made : String → Cluster → Creation Cluster Index
  -- In applyIndexers, with the read lock, and these indexers left.
  applying : String → Cluster → List Index → Creation Cluster Index
  -- After applyIndexers, until the cluster is stored: it is started and its cache fills.
  applied : String → Cluster → Creation Cluster Index

-- An IndexField call after its critical section, with the clusters of its copy that are left.
pub record Call (Cluster Index : Type 0) : Type 0 where
  pub index : Index
  pub rest : List (String × Cluster)

-- The provider's shared state; the successful calls of the clusters' own indexers; the indexes for
-- which an IndexField call has returned an error; the reconciler and the calls under way.
pub record System (Cluster Index : Type 0) : Type 0 where
  pub clusters : List (String × Cluster)
  pub indexers : List Index
  pub indexed : List (Cluster × Index)
  pub failed : List Index
  pub creation : Creation Cluster Index
  pub calls : List (Call Cluster Index)

module _ {Cluster Index : Type 0} where
  abbrev pub start : System Cluster Index
  start = record {
    clusters = [];
    indexers = [];
    indexed = [];
    failed = [];
    creation = resting;
    calls = [];
  }

  pub data Step (s t : System Cluster Index) : Type 0 where
    -- The reconciler: createAndEngageCluster
    make :
        (key : String) (cl : Cluster)
        → s.creation ≡ resting
        → t ≡ record s { creation = made key cl }
        → Step s t
    read_lock :
        (key : String) (cl : Cluster)
        → s.creation ≡ made key cl
        → t ≡ record s { creation = applying key cl s.indexers }
        → Step s t
    apply_indexer :
        (key : String) (cl : Cluster) (idx : Index) (rest : List Index)
        → s.creation ≡ applying key cl (idx ∷ rest)
        → t ≡ record s { creation = applying key cl rest; indexed = (cl, idx) ∷ s.indexed }
        → Step s t
    apply_fails :
        (key : String) (cl : Cluster) (rest : List Index)
        → s.creation ≡ applying key cl rest
        → t ≡ record s { creation = resting }
        → Step s t
    read_unlock :
        (key : String) (cl : Cluster)
        → s.creation ≡ applying key cl []
        → t ≡ record s { creation = applied key cl }
        → Step s t
    sync_fails :
        (key : String) (cl : Cluster)
        → s.creation ≡ applied key cl
        → t ≡ record s { creation = resting }
        → Step s t
    store :
        (key : String) (cl : Cluster)
        → s.creation ≡ applied key cl
        → t ≡ record s { creation = resting; clusters = insert key cl s.clusters }
        → Step s t
    -- removeCluster, by the reconciler
    remove :
        (key : String)
        → s.creation ≡ resting
        → t ≡ record s { clusters = erase key s.clusters }
        → Step s t
    -- IndexField's critical section, which waits while the read lock is held
    register :
        (idx : Index)
        → ((key : String) (cl : Cluster) (rest : List Index) → s.creation ≢ applying key cl rest)
        → t ≡ record s {
          indexers = s.indexers ++ idx ∷ [];
          calls = record { index = idx; rest = s.clusters } ∷ s.calls;
        }
        → Step s t
    -- IndexField's loop over its copy
    index_cluster :
        (i j : ℕ) (c : Call Cluster Index) (others : List (Call Cluster Index)) (key : String)
        (cl : Cluster) (rest : List (String × Cluster))
        → take_at i s.calls ≡ some (c, others)
        → take_at j c.rest ≡ some ((key, cl), rest)
        → t ≡ record s {
          calls = record { index = c.index; rest = rest } ∷ others;
          indexed = (cl, c.index) ∷ s.indexed;
        }
        → Step s t
    index_fails :
        (i : ℕ) (c : Call Cluster Index) (others : List (Call Cluster Index))
        → take_at i s.calls ≡ some (c, others)
        → t ≡ record s { calls = others; failed = c.index ∷ s.failed }
        → Step s t
    return :
        (i : ℕ) (c : Call Cluster Index) (others : List (Call Cluster Index))
        → take_at i s.calls ≡ some (c, others)
        → c.rest ≡ []
        → t ≡ record s { calls = others }
        → Step s t

  pub data Reach (s : System Cluster Index) : System Cluster Index → Type 0 where
    here : Reach s s
    next : {t u : System Cluster Index} → Reach s t → Step t u → Reach s u
