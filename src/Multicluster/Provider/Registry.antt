-- ===== src/Multicluster/Provider/Registry.antt =====
-- The changes of the provider's state: everything that one reconcile does is a sequence of four kinds
-- of step, all at the reconciled cluster's key.
use controlplane_operator.Base.{
  ℕ, suc, String, ◌≡◌, refl, sym, subst, inl, inr, Bool-cases, none, ok, [], ◌∷◌, Result-cases,
  Option-cases, is_some, lookup, lookup-erase, eq_refl, str_eq, arith,
}
use controlplane_operator.Api.{ManagedControlPlane}
use controlplane_operator.Utils.Kubeconfig.{Bytes}
use controlplane_operator.Controller.Kube.{Key}
use controlplane_operator.Multicluster.Provider.{
  Host, State, cluster_name, remove_cluster, apply_indexers, reconcile_managed_addons, store,
  engage_stored, ensure_and_engage, Discovered-cases, start_cluster, create_and_engage_cluster,
  engage_new, refresh, reconcile_found, reconcile,
}

-- The cluster was made by NewCluster from what was parsed from the kubeconfig.
pub record Origin {Cluster Config Index W : Type 0} (h : Host Cluster Config Index W)
    (kubeconfig_data : Bytes) (cl : Cluster) : Type 0 where
  pub cfg : Config
  pub parsed : h.rest_config kubeconfig_data ≡ ok cfg
  pub mcp : ManagedControlPlane
  pub before : W
  pub created : (h.new_cluster mcp cfg before).0 ≡ ok cl

module _ {Cluster Config Index W : Type 0} (h : Host Cluster Config Index W) (key : String)
    (kubeconfig_data : Bytes) where
  abbrev hash : String
  hash = h.hash_kubeconfig kubeconfig_data

  pub data Step (p q : State h) : Type 0 where
    -- Only the world outside changes.
    pass : (w : W) → q ≡ record p { world = w } → Step p q
    drop : q ≡ remove_cluster h key p → Step p q
    -- A context is made and cancelled at once.
    abort :
        (w : W)
        → q
          ≡ record p { contexts = suc p.contexts; cancelled = p.contexts ∷ p.cancelled; world = w }
        → Step p q
    -- A context is made, and a cluster that was made from the kubeconfig and was not there is entered
    -- with it.
    enter :
        (cl : Cluster) (w : W)
        → Origin h kubeconfig_data cl
        → lookup key p.clusters ≡ none
        → q ≡ store h key cl p.contexts hash (record p { contexts = suc p.contexts; world = w })
        → Step p q

  pub data Reach (p : State h) : State h → Type 0 where
    here : Reach p p
    next : {q r : State h} → Reach p q → Step q r → Reach p r

  Reach-trans : {p q r : State h} → Reach p q → Reach q r → Reach p r
  Reach-trans a here = a
  Reach-trans a (next b s) = next (Reach-trans a b) s

  one : {p q : State h} → Step p q → Reach p q
  one s = next here s

  world_only : (p : State h) (w : W) → Reach p (record p { world = w })
  world_only p w = one (pass w refl)

  -- A state that is equal to one that is reached.
  reaches : {p q r : State h} → q ≡ r → Reach p r → Reach p q
  reaches {p} e a = subst (Reach p) (sym e) a

  engage_stored-Reach :
      (cl : Cluster) (ctx : ℕ) (p : State h) → Reach p (engage_stored h key cl ctx p).1
  unfolding engage_stored
  engage_stored-Reach cl ctx p = elim (Option-cases (h.engage ctx key cl p.world).0) [
    | inl e ↦ one (pass (h.engage ctx key cl p.world).1 (ground arith))
    | inr (x, e) ↦ next (world_only p (h.engage ctx key cl p.world).1) (drop (ground arith))
  ]

  ensure_and_engage-Reach :
      (cl : Cluster) (ctx : ℕ) (p : State h) → Reach p (ensure_and_engage h key cl ctx p).1
  unfolding ensure_and_engage
  ensure_and_engage-Reach cl ctx p =
      let w = (reconcile_managed_addons h cl p.world).1 in
      elim (Option-cases (reconcile_managed_addons h cl p.world).0) [
        | inl e ↦
            reaches (ground arith)
              (Reach-trans (world_only p w) (engage_stored-Reach cl ctx (record p { world = w })))
        | inr (x, e) ↦ one (pass w (ground arith))
      ]

  start_cluster-Reach :
      (cl : Cluster) (p : State h)
      → Origin h kubeconfig_data cl
      → lookup key p.clusters ≡ none
      → Reach p (start_cluster h key cl hash p).1
  unfolding start_cluster
  start_cluster-Reach cl p origin absent =
      let synced = h.wait_for_cache_sync cl p.contexts (h.start cl p.contexts p.world) in
      elim (Bool-cases synced.0) [
        | inl e ↦ reaches (ground arith) (
            Reach-trans (one (enter cl synced.1 origin absent refl))
              (ensure_and_engage-Reach cl p.contexts _))
        | inr e ↦ one (abort synced.1 (ground arith))
      ]

  create_and_engage_cluster-Reach :
      (mcp : ManagedControlPlane) (cfg : Config) (p : State h)
      → h.rest_config kubeconfig_data ≡ ok cfg
      → lookup key p.clusters ≡ none
      → Reach p (create_and_engage_cluster h key mcp cfg hash p).1
  unfolding create_and_engage_cluster
  create_and_engage_cluster-Reach mcp cfg p parsed absent =
      let w = (h.new_cluster mcp cfg p.world).1 in
      elim (Result-cases (h.new_cluster mcp cfg p.world).0) [
        | inr (x, e) ↦ one (pass w (ground arith))
        | inl (cl, e) ↦
            let w' = (apply_indexers h cl p.indexers w).1 in
            elim (Option-cases (apply_indexers h cl p.indexers w).0) [
              | inr (x, e') ↦ one (pass w' (ground arith))
              | inl e' ↦ reaches (ground arith) (
                  Reach-trans (world_only p w') (
                    start_cluster-Reach cl (record p { world = w' })
                      (record {
                        cfg = cfg;
                        parsed = parsed;
                        mcp = mcp;
                        before = p.world;
                        created = e;
                      })
                      absent))
            ]
      ]

module _ {Cluster Config Index W : Type 0} (h : Host Cluster Config Index W) (key : String) where
  pub engage_new-Reach :
      (mcp : ManagedControlPlane) (kubeconfig_data : Bytes) (p : State h)
      → lookup key p.clusters ≡ none
      → Reach h key kubeconfig_data p (engage_new h key mcp kubeconfig_data p).1
  unfolding engage_new
  engage_new-Reach mcp kubeconfig_data p absent =
      elim (Result-cases (h.rest_config kubeconfig_data)) [
        | inr (x, e) ↦ reaches h key _ (ground arith) here
        | inl (cfg, e) ↦ elim (Discovered-cases (h.server_version cfg p.world)) [
          | inr (inr (x, e')) ↦ reaches h key _ (ground arith) here
          | inr (inl (x, e')) ↦ reaches h key _ (ground arith) here
          | inl e' ↦
              reaches h key _ (ground arith)
                (create_and_engage_cluster-Reach h key kubeconfig_data mcp cfg p e absent)
        ]
      ]

  pub lookup-remove_cluster : (p : State h) → lookup key (remove_cluster h key p).clusters ≡ none
  unfolding remove_cluster
  lookup-remove_cluster p = ground (arith, lookup-erase key key p.clusters, eq_refl key)

  refresh-Reach :
      (mcp : ManagedControlPlane) (kubeconfig_data : Bytes) (p : State h)
      → Reach h key kubeconfig_data p (refresh h key mcp kubeconfig_data p).1
  unfolding refresh
  refresh-Reach mcp kubeconfig_data p = elim (Option-cases (lookup key p.clusters)) [
    | inl e ↦ reaches h key _ (ground arith) (engage_new-Reach mcp kubeconfig_data p e)
    | inr (ac, e) ↦ elim (Bool-cases (str_eq ac.hash (h.hash_kubeconfig kubeconfig_data))) [
      | inl same ↦ reaches h key _ (ground arith) here
      | inr other ↦ reaches h key _ (ground arith) (
          Reach-trans h key _ (one h key _ (drop refl)) (
            engage_new-Reach mcp kubeconfig_data (remove_cluster h key p)
              (lookup-remove_cluster p)))
    ]
  ]

  reconcile_found-Reach :
      (mcp : ManagedControlPlane) (p : State h)
      → (kubeconfig_data : Bytes) × Reach h key kubeconfig_data p (reconcile_found h key mcp p).1
  unfolding reconcile_found
  reconcile_found-Reach mcp p = elim (Bool-cases (is_some mcp.meta.deletion_timestamp)) [
    | inl deleting ↦ ([], one h key _ (drop (ground arith)))
    | inr live ↦ elim (Bool-cases (h.is_ready mcp)) [
      | inr waits ↦ ([], reaches h key _ (ground arith) here)
      | inl ready ↦ elim (Result-cases (h.get_secret mcp p.world)) [
        | inr (x, e) ↦ ([], reaches h key _ (ground arith) here)
        | inl (bytes, e) ↦ (bytes, reaches h key _ (ground arith) (refresh-Reach mcp bytes p))
      ]
    ]
  ]

-- Whatever one reconcile does to the state is a sequence of these steps at its own key.
pub reconcile-Reach :
    {Cluster Config Index W : Type 0} (h : Host Cluster Config Index W) (req : Key) (p : State h)
    → (kubeconfig_data : Bytes) × Reach h (cluster_name req) kubeconfig_data p (reconcile h req p).1
unfolding reconcile
reconcile-Reach h req p = elim (Result-cases (h.get_control_plane req p.world)) [
  | inl (mcp, e) ↦
      let (data_read, r) = reconcile_found-Reach h (cluster_name req) mcp p in
      (data_read, reaches h _ _ (ground arith) r)
  | inr (x, e) ↦ elim (Bool-cases (h.is_not_found x)) [
    | inl gone ↦ ([], one h _ _ (drop (ground arith)))
    | inr failed ↦ ([], reaches h _ _ (ground arith) here)
  ]
]
