-- ===== src/Multicluster/Provider/Engagement.antt =====
-- When a cluster whose sync succeeds is engaged with the manager, and when it never is.
use controlplane_operator.Base.{
  suc, String, ◌≡◌, refl, Bool, true, Error, wrapped, ok, none, some, lookup, lookup-insert, arith,
  ◌∙◌, eq_iff, eq_refl,
}
use controlplane_operator.Api.{ManagedControlPlane}
use controlplane_operator.Utils.Kubeconfig.{Bytes}
use controlplane_operator.Controller.Kube.{done}
use controlplane_operator.Multicluster.Provider.{
  ActiveCluster, Host, State, store, apply_indexers, reconcile_managed_addons, ensure_and_engage,
  answered, start_cluster, create_and_engage_cluster, get, refresh, engage_new,
}

module _ {Cluster Config Index W : Type 0} (h : Host Cluster Config Index W) (key : String) where
  -- The world after the cluster was made, indexed and started.
  abbrev pub launched : ManagedControlPlane → Config → Cluster → State h → Bool × W
  launched mcp cfg cl p =
      let indexed = (apply_indexers h cl p.indexers (h.new_cluster mcp cfg p.world).1).1 in
      h.wait_for_cache_sync cl p.contexts (h.start cl p.contexts indexed)

  -- The steps up to the sync of a cluster that was not known all succeed.
  pub record Synced (mcp : ManagedControlPlane) (kubeconfig_data : Bytes) (p : State h)
      : Type 0 where
    pub absent : lookup key p.clusters ≡ none
    pub cfg : Config
    pub parsed : h.rest_config kubeconfig_data ≡ ok cfg
    pub served : h.server_version cfg p.world ≡ answered
    pub cl : Cluster
    pub creates : (h.new_cluster mcp cfg p.world).0 ≡ ok cl
    pub indexes : (apply_indexers h cl p.indexers (h.new_cluster mcp cfg p.world).1).0 ≡ none
    pub syncs : (launched mcp cfg cl p).0 ≡ true

  -- The state in which the managed add-on is looked at.
  abbrev pub entered :
      {mcp : ManagedControlPlane} {kubeconfig_data : Bytes} {p : State h}
      → Synced mcp kubeconfig_data p
      → State h
  entered {mcp} {kubeconfig_data} {p} s =
      store h key s.cl p.contexts (h.hash_kubeconfig kubeconfig_data)
        (record p { contexts = suc p.contexts; world = (launched mcp s.cfg s.cl p).1 })

  refresh_synced :
      {mcp : ManagedControlPlane} {kubeconfig_data : Bytes} {p : State h}
      (s : Synced mcp kubeconfig_data p)
      → refresh h key mcp kubeconfig_data p ≡ (
        (done, (ensure_and_engage h key s.cl p.contexts (entered s)).0),
        (ensure_and_engage h key s.cl p.contexts (entered s)).1,
      )
  unfolding refresh engage_new create_and_engage_cluster start_cluster
  refresh_synced {p} s =
      rw (refresh, s.absent)
        (rw (engage_new, s.parsed)
          (rw s.served (
            rw (create_and_engage_cluster, s.creates)
              (rw s.indexes (rw (start_cluster, s.syncs) refl)))))

  lookup-entered :
      {mcp : ManagedControlPlane} {kubeconfig_data : Bytes} {p : State h}
      (s : Synced mcp kubeconfig_data p)
      → lookup key (entered s).clusters
        ≡ some (record {
          cluster = s.cl;
          cancel = p.contexts;
          hash = h.hash_kubeconfig kubeconfig_data;
        })
  unfolding store
  lookup-entered {p} s = lookup-insert key key _ p.clusters ∙ rw (eq_refl key) refl

  refresh_unchanged :
      (mcp : ManagedControlPlane) (kubeconfig_data : Bytes) (p : State h)
      (ac : ActiveCluster Cluster)
      → lookup key p.clusters ≡ some ac
      → ac.hash ≡ h.hash_kubeconfig kubeconfig_data
      → refresh h key mcp kubeconfig_data p ≡ ((done, none), p)
  unfolding refresh
  refresh_unchanged mcp kubeconfig_data p ac known same =
      ground (arith, eq_iff ac.hash (h.hash_kubeconfig kubeconfig_data))

  -- When the managed add-on of a cluster that was synced fails, the refresh returns the error, but the
  -- cluster stays known, and the next refresh with the same kubeconfig changes nothing, the world
  -- included, and reports success: it does not engage the cluster with the manager.
  pub refresh_strands :
      (mcp : ManagedControlPlane) (kubeconfig_data : Bytes) (p : State h)
      (s : Synced mcp kubeconfig_data p) (e : Error) (later : ManagedControlPlane)
      → (reconcile_managed_addons h s.cl (launched mcp s.cfg s.cl p).1).0 ≡ some e
      → let q = (refresh h key mcp kubeconfig_data p).1 in
        ((refresh h key mcp kubeconfig_data p).0
          ≡ (done, some (wrapped "failed to ensure managedaddon" e)))
        × (get h key q ≡ ok s.cl)
        × (refresh h key later kubeconfig_data q ≡ ((done, none), q))
  unfolding get ensure_and_engage reconcile_managed_addons store
  refresh_strands mcp kubeconfig_data p s e later failed =
      let w = (reconcile_managed_addons h s.cl (launched mcp s.cfg s.cl p).1).1 in
      let q : State h = let p' = entered s in record p' { world = w } in
      let ends : refresh h key mcp kubeconfig_data p
          ≡ ((done, some (wrapped "failed to ensure managedaddon" e)), q) =
        rw (refresh_synced s) (rw (ensure_and_engage, failed) refl) in
      rw ends (
        refl,
        rw (get, lookup-entered s) refl,
        refresh_unchanged later kubeconfig_data q _ (lookup-entered s) refl,
      )
