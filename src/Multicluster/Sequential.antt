-- ===== src/Multicluster/Sequential.antt =====
-- pkg/controller/multicluster/provider.go: a state of the provider as a state of the interleaved model,
-- and the steps that change nothing or only remove a cluster.
pub mod Creation
pub mod Indexing
pub mod Runs
use controlplane_operator.Base.{
  String, ◌≡◌, refl, ap, sym, subst, inl, inr, Bool-cases, Option-cases, none, some, List, [], ◌∷◌,
  ℕ, Error, str_eq, lookup, insert, erase,
}
use controlplane_operator.Api.{ManagedControlPlane}
use controlplane_operator.Multicluster.Provider.{ActiveCluster, Host, State, remove_cluster}
use controlplane_operator.Multicluster.Interleaving.{System, resting, remove}
use controlplane_operator.Multicluster.Interleaving.Calm.{CalmReach, none_yet, calmly}

abbrev pub up : {Cluster : Type 0} → List (String × ActiveCluster Cluster) → List (String × Cluster)
up [] = []
up ((key, ac) ∷ rest) = (key, ac.cluster) ∷ up rest

module _ {Cluster : Type 0} where
  pub up-insert :
      (key : String) (ac : ActiveCluster Cluster) (m : List (String × ActiveCluster Cluster))
      → up (insert key ac m) ≡ insert key ac.cluster (up m)
  unfolding insert
  up-insert key ac [] = refl
  up-insert key ac ((k, a) ∷ m) = elim (Bool-cases (str_eq k key)) [
    | inl e ↦ rw e refl
    | inr e ↦ rw e (ap (λ l. (k, a.cluster) ∷ l) (up-insert key ac m))
  ]

  up-erase :
      (key : String) (m : List (String × ActiveCluster Cluster))
      → up (erase key m) ≡ erase key (up m)
  unfolding erase
  up-erase key [] = refl
  up-erase key ((k, a) ∷ m) = elim (Bool-cases (str_eq k key)) [
    | inl e ↦ rw e (up-erase key m)
    | inr e ↦ rw e (ap (λ l. (k, a.cluster) ∷ l) (up-erase key m))
  ]

-- `observed` reads off the indexes that the clusters have: an IndexField of a cluster that succeeds adds
-- one, one that fails adds none, and nothing else that the provider calls does.
pub record IsIndexing {Cluster Config Index W : Type 0} (h : Host Cluster Config Index W)
    (observed : W → List (Cluster × Index)) : Type 0 where
  pub adds :
      (cl : Cluster) (idx : Index) (w : W)
      → (h.index_field cl idx w).0 ≡ none
      → observed (h.index_field cl idx w).1 ≡ (cl, idx) ∷ observed w
  pub refuses :
      (cl : Cluster) (idx : Index) (w : W) {e : Error}
      → (h.index_field cl idx w).0 ≡ some e
      → observed (h.index_field cl idx w).1 ≡ observed w
  pub creates :
      (mcp : ManagedControlPlane) (cfg : Config) (w : W)
      → observed (h.new_cluster mcp cfg w).1 ≡ observed w
  pub starts : (cl : Cluster) (ctx : ℕ) (w : W) → observed (h.start cl ctx w) ≡ observed w
  pub syncs :
      (cl : Cluster) (ctx : ℕ) (w : W) → observed (h.wait_for_cache_sync cl ctx w).1 ≡ observed w
  pub ensures : (cl : Cluster) (w : W) → observed (h.create_managed_addon cl w).1 ≡ observed w
  pub engages :
      (ctx : ℕ) (key : String) (cl : Cluster) (w : W)
      → observed (h.engage ctx key cl w).1 ≡ observed w

module _ {Cluster Index : Type 0} where
  pub CalmReach-trans :
      {s t u : System Cluster Index} → CalmReach s t → CalmReach t u → CalmReach s u
  CalmReach-trans a none_yet = a
  CalmReach-trans a (calmly b st q) = calmly (CalmReach-trans a b) st q

module _ {Cluster Config Index W : Type 0} (h : Host Cluster Config Index W)
    (observed : W → List (Cluster × Index)) where
  -- The state as the interleaved model has it while nothing is under way, with the indexes that the
  -- clusters are observed to have.
  abbrev pub at_rest : State h → List Index → System Cluster Index
  at_rest p failed = record {
    clusters = up p.clusters;
    indexers = p.indexers;
    indexed = observed p.world;
    failed = failed;
    creation = resting;
    calls = [];
  }

  -- A run of the interleaved model between two states at rest.
  abbrev pub Runs : State h → List Index → State h → List Index → Type 0
  Runs p failed q failed' = CalmReach (at_rest p failed) (at_rest q failed')

  pub arrives :
      (failed : List Index) (p q r : State h)
      → q ≡ r
      → Runs p failed r failed
      → Runs p failed q failed
  arrives failed p q r e a = subst (λ (x : State h). Runs p failed x failed) (sym e) a

  -- The world changes, but no cluster gets an index.
  pub world_only :
      (failed : List Index) (p : State h) (w : W)
      → observed w ≡ observed p.world
      → Runs p failed (record p { world = w }) failed
  world_only failed p w e =
      subst (λ ix. CalmReach (at_rest p failed) (record (at_rest p failed) { indexed = ix }))
        (sym e) none_yet

  pub removes :
      (failed : List Index) (key : String) (p : State h)
      → Runs p failed (remove_cluster h key p) failed
  unfolding remove_cluster
  removes failed key p = elim (Option-cases (lookup key p.clusters)) [
    | inl e ↦ rw (e, remove_cluster) none_yet
    | inr (ac, e) ↦
        rw (e, remove_cluster)
          (calmly none_yet
            (remove key refl
              (ap (λ m. record (at_rest p failed) { clusters = m }) (up-erase key p.clusters)))
            (λ k c x. refl))
  ]
