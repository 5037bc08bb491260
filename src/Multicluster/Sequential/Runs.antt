-- ===== src/Multicluster/Sequential/Runs.antt =====
-- A history of operations that do not overlap is a run of the interleaved model.
use controlplane_operator.Base.{
  String, ◌≡◌, subst, inl, inr, Bool-cases, Option-cases, Result-cases, List, [], ◌∷◌, is_some,
  lookup, str_eq, arith,
}
use controlplane_operator.Api.{ManagedControlPlane}
use controlplane_operator.Utils.Kubeconfig.{Bytes}
use controlplane_operator.Controller.Kube.{Key}
use controlplane_operator.Multicluster.Provider.{
  Host, State, Discovered-cases, cluster_name, new, remove_cluster, create_and_engage_cluster,
  engage_new, refresh, reconcile_found, reconcile,
}
use controlplane_operator.Multicluster.Provider.History.{
  Operation, reconciles, indexes, operate, run,
}
use controlplane_operator.Multicluster.Interleaving.{start}
use controlplane_operator.Multicluster.Interleaving.Calm.{CalmReach, none_yet}
use controlplane_operator.Multicluster.Sequential.{
  IsIndexing, CalmReach-trans, at_rest, Runs, arrives, removes,
}
use controlplane_operator.Multicluster.Sequential.Creation.{create_and_engage_cluster-Runs}
use controlplane_operator.Multicluster.Sequential.Indexing.{index_field-Runs}

module _ {Cluster Config Index W : Type 0} (h : Host Cluster Config Index W)
    (observed : W → List (Cluster × Index)) (indexing : IsIndexing h observed) where
  module _ (failed : List Index) (key : String) where
    engage_new-Runs :
        (mcp : ManagedControlPlane) (kubeconfig_data : Bytes) (p : State h)
        → Runs h observed p failed (engage_new h key mcp kubeconfig_data p).1 failed
    unfolding engage_new
    engage_new-Runs mcp kubeconfig_data p = elim (Result-cases (h.rest_config kubeconfig_data)) [
      | inr (x, e) ↦
          arrives h observed failed p ((engage_new h key mcp kubeconfig_data p).1) (p)
            (ground arith) none_yet
      | inl (cfg, e) ↦ elim (Discovered-cases (h.server_version cfg p.world)) [
        | inr (inr (x, e')) ↦
            arrives h observed failed p ((engage_new h key mcp kubeconfig_data p).1) (p)
              (ground arith) none_yet
        | inr (inl (x, e')) ↦
            arrives h observed failed p ((engage_new h key mcp kubeconfig_data p).1) (p)
              (ground arith) none_yet
        | inl e' ↦
            arrives h observed failed p ((engage_new h key mcp kubeconfig_data p).1)
              ((create_and_engage_cluster h key mcp cfg (h.hash_kubeconfig kubeconfig_data) p).1)
              (ground arith)
              (create_and_engage_cluster-Runs h observed indexing failed key mcp cfg
                (h.hash_kubeconfig kubeconfig_data) p)
      ]
    ]

    refresh-Runs :
        (mcp : ManagedControlPlane) (kubeconfig_data : Bytes) (p : State h)
        → Runs h observed p failed (refresh h key mcp kubeconfig_data p).1 failed
    unfolding refresh
    refresh-Runs mcp kubeconfig_data p = elim (Option-cases (lookup key p.clusters)) [
      | inl e ↦
          arrives h observed failed p ((refresh h key mcp kubeconfig_data p).1)
            ((engage_new h key mcp kubeconfig_data p).1) (ground arith)
            (engage_new-Runs mcp kubeconfig_data p)
      | inr (ac, e) ↦ elim (Bool-cases (str_eq ac.hash (h.hash_kubeconfig kubeconfig_data))) [
        | inl same ↦
            arrives h observed failed p ((refresh h key mcp kubeconfig_data p).1) (p) (ground arith)
              none_yet
        | inr other ↦
            arrives h observed failed p ((refresh h key mcp kubeconfig_data p).1)
              ((engage_new h key mcp kubeconfig_data (remove_cluster h key p)).1) (ground arith)
              (CalmReach-trans (removes h observed failed key p)
                (engage_new-Runs mcp kubeconfig_data (remove_cluster h key p)))
      ]
    ]

    found-Runs :
        (mcp : ManagedControlPlane) (p : State h)
        → Runs h observed p failed (reconcile_found h key mcp p).1 failed
    unfolding reconcile_found
    found-Runs mcp p = elim (Bool-cases (is_some mcp.meta.deletion_timestamp)) [
      | inl deleting ↦
          arrives h observed failed p ((reconcile_found h key mcp p).1) (remove_cluster h key p)
            (ground arith) (removes h observed failed key p)
      | inr live ↦ elim (Bool-cases (h.is_ready mcp)) [
        | inr waits ↦
            arrives h observed failed p ((reconcile_found h key mcp p).1) (p) (ground arith)
              none_yet
        | inl ready ↦ elim (Result-cases (h.get_secret mcp p.world)) [
          | inr (x, e) ↦
              arrives h observed failed p ((reconcile_found h key mcp p).1) (p) (ground arith)
                none_yet
          | inl (bytes, e) ↦
              arrives h observed failed p ((reconcile_found h key mcp p).1)
                ((refresh h key mcp bytes p).1) (ground arith) (refresh-Runs mcp bytes p)
        ]
      ]
    ]

  reconcile-Runs :
      (failed : List Index) (req : Key) (p : State h)
      → Runs h observed p failed (reconcile h req p).1 failed
  unfolding reconcile
  reconcile-Runs failed req p = elim (Result-cases (h.get_control_plane req p.world)) [
    | inl (mcp, e) ↦
        arrives h observed failed p ((reconcile h req p).1)
          ((reconcile_found h (cluster_name req) mcp p).1) (ground arith)
          (found-Runs failed (cluster_name req) mcp p)
    | inr (x, e) ↦ elim (Bool-cases (h.is_not_found x)) [
      | inl gone ↦
          arrives h observed failed p ((reconcile h req p).1)
            (remove_cluster h (cluster_name req) p) (ground arith)
            (removes h observed failed (cluster_name req) p)
      | inr broken ↦ arrives h observed failed p ((reconcile h req p).1) (p) (ground arith) none_yet
    ]
  ]

  operate-Runs :
      (op : Operation Index) (p : State h) (failed : List Index)
      → Runs h observed p failed (operate h op (p, failed)).0 (operate h op (p, failed)).1
  unfolding operate
  operate-Runs (reconciles req) p failed = reconcile-Runs failed req p
  operate-Runs (indexes idx) p failed = index_field-Runs h observed indexing idx p failed

  run-Runs :
      (ops : List (Operation Index)) (p : State h) (failed : List Index)
      → Runs h observed p failed (run h ops (p, failed)).0 (run h ops (p, failed)).1
  unfolding run
  run-Runs [] p failed = none_yet
  run-Runs (op ∷ ops) p failed =
      CalmReach-trans (operate-Runs op p failed)
        (run-Runs ops (operate h op (p, failed)).0 (operate h op (p, failed)).1)

  -- Every history of reconciles and IndexField calls that do not overlap, from a new provider in a world
  -- without indexes and whatever the libraries answer, is a run of the interleaved model in which no index
  -- is registered while a cluster waits to be stored: with the same known clusters and indexers, with
  -- exactly the indexes that the clusters are observed to have, and with an error for exactly the indexes
  -- whose call has returned one.
  pub run-CalmReach :
      (ops : List (Operation Index)) (w : W)
      → observed w ≡ []
      → CalmReach start (at_rest h observed (run h ops (new h w, [])).0 (run h ops (new h w, [])).1)
  unfolding new
  run-CalmReach ops w e =
      subst
        (λ ix.
          CalmReach (record (at_rest h observed (new h w) []) { indexed = ix })
            (at_rest h observed (run h ops (new h w, [])).0 (run h ops (new h w, [])).1))
        e (run-Runs ops (new h w) [])
