-- ===== src/Multicluster/Provider/Coherence.antt =====
-- Which cluster may stand at a key once its control plane was reconciled.
use controlplane_operator.Base.{
  String, ◌≡◌, refl, ap, List, [], ◌∷◌, insert, sym, subst, inl, inr, true, false, Bool-cases,
  Option-cases, Error, ok, err, none, some, is_some, lookup, lookup-insert, str_eq, arith, ◌∙◌,
  eq_iff, eq_refl,
}
use controlplane_operator.Api.{ManagedControlPlane}
use controlplane_operator.Utils.Kubeconfig.{Bytes}
use controlplane_operator.Controller.Kube.{Key}
use controlplane_operator.Multicluster.Provider.{
  ActiveCluster, Host, State, cluster_name, new, remove_cluster, store, index_field, refresh,
  reconcile_found, reconcile,
}
use controlplane_operator.Multicluster.Provider.Registry.{
  Origin, Step, pass, drop, abort, enter, Reach, here, next, engage_new-Reach,
  lookup-remove_cluster, reconcile-Reach,
}
use controlplane_operator.Multicluster.Provider.Frame.{Step-AgreesOff}
use controlplane_operator.Multicluster.Provider.History.{
  Operation, reconciles, indexes, operate, run,
}

module _ {Cluster Config Index W : Type 0} (h : Host Cluster Config Index W) where
  -- An entry that was made from a kubeconfig, and has its hash.
  pub record MadeFrom (kubeconfig_data : Bytes) (ac : ActiveCluster Cluster) : Type 0 where
    pub hashed : ac.hash ≡ h.hash_kubeconfig kubeconfig_data
    pub origin : Origin h kubeconfig_data ac.cluster

  -- Each entry was made from some kubeconfig.
  abbrev pub Made : State h → Type 0
  Made p =
      (j : String) (ac : ActiveCluster Cluster)
      → lookup j p.clusters ≡ some ac
      → (kubeconfig_data : Bytes) × MadeFrom kubeconfig_data ac

  -- Nothing stands at the key, or a cluster that was made from this kubeconfig.
  pub data Current (key : String) (kubeconfig_data : Bytes) (p : State h) : Type 0 where
    unknown : lookup key p.clusters ≡ none → Current key kubeconfig_data p
    known :
        (ac : ActiveCluster Cluster)
        → lookup key p.clusters ≡ some ac
        → MadeFrom kubeconfig_data ac
        → Current key kubeconfig_data p

  module _ (key : String) where
    along :
        {kubeconfig_data : Bytes} {p q : State h}
        → q ≡ p
        → Current key kubeconfig_data p
        → Current key kubeconfig_data q
    along {kubeconfig_data} e c = subst (Current key kubeconfig_data) (sym e) c

    Step-Current :
        (kubeconfig_data : Bytes) (p q : State h)
        → Current key kubeconfig_data p
        → Step h key kubeconfig_data p q
        → Current key kubeconfig_data q
    unfolding store
    Step-Current kubeconfig_data p q (unknown x) (pass w e) = along e (unknown x)
    Step-Current kubeconfig_data p q (known ac x y) (pass w e) = along e (known ac x y)
    Step-Current kubeconfig_data p q c (drop e) = along e (unknown (lookup-remove_cluster h key p))
    Step-Current kubeconfig_data p q (unknown x) (abort w e) = along e (unknown x)
    Step-Current kubeconfig_data p q (known ac x y) (abort w e) = along e (known ac x y)
    Step-Current kubeconfig_data p q c (enter cl w origin absent e) =
        let ac : ActiveCluster Cluster = record {
          cluster = cl;
          cancel = p.contexts;
          hash = h.hash_kubeconfig kubeconfig_data;
        } in
        along e (
          known ac (lookup-insert key key ac p.clusters ∙ rw (eq_refl key) refl)
            (record { hashed = refl; origin = origin }))

    Reach-Current :
        (kubeconfig_data : Bytes) (p q : State h)
        → Current key kubeconfig_data p
        → Reach h key kubeconfig_data p q
        → Current key kubeconfig_data q
    Reach-Current kubeconfig_data p q c here = c
    Reach-Current kubeconfig_data p q c (next b s) =
        Step-Current kubeconfig_data _ q (Reach-Current kubeconfig_data p _ c b) s

    same_lookup :
        {p q : State h} {ac : ActiveCluster Cluster}
        → q ≡ p
        → lookup key q.clusters ≡ some ac
        → lookup key p.clusters ≡ some ac
    same_lookup e found = ap (λ (s : State h). lookup key s.clusters) (sym e) ∙ found

    -- What a step leaves at its own key was there or was made from its kubeconfig.
    Step-MadeFrom :
        (kubeconfig_data : Bytes) (p q : State h)
        → Made p
        → Step h key kubeconfig_data p q
        → (ac : ActiveCluster Cluster) → lookup key q.clusters ≡ some ac
        → (d : Bytes) × MadeFrom d ac
    unfolding store
    Step-MadeFrom kubeconfig_data p q made (pass w e) ac found =
        made key ac (same_lookup {p = record p { world = w }} e found)
    Step-MadeFrom kubeconfig_data p q made (drop e) ac found =
        let gone = lookup-remove_cluster h key p in let here_now = same_lookup e found in cc
    Step-MadeFrom kubeconfig_data p q made (abort w e) ac found = made key ac (same_lookup e found)
    Step-MadeFrom kubeconfig_data p q made (enter cl w origin absent e) ac found =
        let new_ac : ActiveCluster Cluster = record {
          cluster = cl;
          cancel = p.contexts;
          hash = h.hash_kubeconfig kubeconfig_data;
        } in
        let entered : lookup key (insert key new_ac p.clusters) ≡ some new_ac =
          lookup-insert key key new_ac p.clusters ∙ rw (eq_refl key) refl in
        let here_now = same_lookup e found in
        let same : new_ac ≡ ac = cc in
        (
          kubeconfig_data,
          subst (MadeFrom kubeconfig_data) same (record { hashed = refl; origin = origin }),
        )

    Step-Made :
        (kubeconfig_data : Bytes) (p q : State h) → Made p → Step h key kubeconfig_data p q → Made q
    Step-Made kubeconfig_data p q made s j ac found = elim (Bool-cases (str_eq key j)) [
      | inr off ↦
          made j ac (sym ((Step-AgreesOff h key kubeconfig_data p q s).entries j off) ∙ found)
      | inl on ↦
          let same : key ≡ j = (eq_iff key j).0 on in
          Step-MadeFrom kubeconfig_data p q made s ac (ap (λ x. lookup x q.clusters) same ∙ found)
    ]

    Reach-Made :
        (kubeconfig_data : Bytes) (p q : State h)
        → Made p
        → Reach h key kubeconfig_data p q
        → Made q
    Reach-Made kubeconfig_data p q made here = made
    Reach-Made kubeconfig_data p q made (next b s) =
        Step-Made kubeconfig_data _ q (Reach-Made kubeconfig_data p _ made b) s

    kept-Current :
        (kubeconfig_data : Bytes) (p : State h) (ac : ActiveCluster Cluster)
        → Made p
        → ((d : Bytes)
            → h.hash_kubeconfig d ≡ h.hash_kubeconfig kubeconfig_data
            → d ≡ kubeconfig_data)
        → lookup key p.clusters ≡ some ac
        → ac.hash ≡ h.hash_kubeconfig kubeconfig_data
        → Current key kubeconfig_data p
    kept-Current kubeconfig_data p ac made unique e same =
        let (d, from) = made key ac e in
        let same_data : d ≡ kubeconfig_data = unique d (sym from.hashed ∙ same) in
        known ac e (subst (λ x. MadeFrom x ac) same_data from)

    refresh-Current :
        (mcp : ManagedControlPlane) (kubeconfig_data : Bytes) (p : State h)
        → Made p
        → ((d : Bytes)
            → h.hash_kubeconfig d ≡ h.hash_kubeconfig kubeconfig_data
            → d ≡ kubeconfig_data)
        → Current key kubeconfig_data (refresh h key mcp kubeconfig_data p).1
    unfolding refresh
    refresh-Current mcp kubeconfig_data p made unique =
        let hash = h.hash_kubeconfig kubeconfig_data in
        elim (Option-cases (lookup key p.clusters)) [
          | inl e ↦ along (ground arith) (
              Reach-Current kubeconfig_data p _ (unknown e)
                (engage_new-Reach h key mcp kubeconfig_data p e))
          | inr (ac, e) ↦ elim (Bool-cases (str_eq ac.hash hash)) [
            | inl same ↦
                along {p = p} (ground arith)
                  (kept-Current kubeconfig_data p ac made unique e ((eq_iff ac.hash hash).0 same))
            | inr other ↦
                let q = remove_cluster h key p in
                let gone = lookup-remove_cluster h key p in
                along (ground arith) (
                  Reach-Current kubeconfig_data q _ (unknown gone)
                    (engage_new-Reach h key mcp kubeconfig_data q gone))
          ]
        ]

  operate-Made :
      (op : Operation Index) (p : State h) (failed : List Index)
      → Made p
      → Made (operate h op (p, failed)).0
  unfolding operate index_field
  operate-Made (reconciles req) p failed made =
      let (kubeconfig_data, r) = reconcile-Reach h req p in
      Reach-Made (cluster_name req) kubeconfig_data p (reconcile h req p).1 made r
  operate-Made (indexes idx) p failed made = made

  run-Made :
      (ops : List (Operation Index)) (p : State h) (failed : List Index)
      → Made p
      → Made (run h ops (p, failed)).0
  unfolding run
  run-Made [] p failed made = made
  run-Made (op ∷ ops) p failed made =
      run-Made ops (operate h op (p, failed)).0 (operate h op (p, failed)).1
        (operate-Made op p failed made)

  new-Made : (w : W) → Made (new h w)
  unfolding new lookup
  new-Made w j ac e = cc

-- After any history of reconciles and IndexField calls, a reconcile of a control plane that is ready,
-- whose kubeconfig can be read and shares its hash with no other leaves nothing at its key, or a cluster
-- that NewCluster made from what was parsed from just that kubeconfig, whatever failed on the way.
pub reconcile-Current :
    {Cluster Config Index W : Type 0} (h : Host Cluster Config Index W)
    (ops : List (Operation Index)) (w : W) (req : Key) (mcp : ManagedControlPlane)
    (kubeconfig_data : Bytes)
    → ((d : Bytes) → h.hash_kubeconfig d ≡ h.hash_kubeconfig kubeconfig_data → d ≡ kubeconfig_data)
    → h.get_control_plane req (run h ops (new h w, [])).0.world ≡ ok mcp
    → is_some mcp.meta.deletion_timestamp ≡ false
    → h.is_ready mcp ≡ true
    → h.get_secret mcp (run h ops (new h w, [])).0.world ≡ ok kubeconfig_data
    → Current h (cluster_name req) kubeconfig_data (reconcile h req (run h ops (new h w, [])).0).1
unfolding reconcile reconcile_found
reconcile-Current h ops w req mcp kubeconfig_data unique found live ready read =
    let p = (run h ops (new h w, [])).0 in
    along h (cluster_name req) {p = (refresh h (cluster_name req) mcp kubeconfig_data p).1}
      (ground arith)
      (refresh-Current h (cluster_name req) mcp kubeconfig_data p
        (run-Made h ops (new h w) [] (new-Made h w)) unique)

-- The control plane is gone or being deleted.
pub data Departed {Cluster Config Index W : Type 0} (h : Host Cluster Config Index W) (req : Key)
    (w : W) : Type 0 where
  gone :
      (e : Error) → h.get_control_plane req w ≡ err e → h.is_not_found e ≡ true → Departed h req w
  leaving :
      (mcp : ManagedControlPlane)
      → h.get_control_plane req w ≡ ok mcp
      → is_some mcp.meta.deletion_timestamp ≡ true
      → Departed h req w

-- Once a control plane that is gone or being deleted was reconciled, its cluster is not known, and
-- the reconcile has not failed.
pub reconcile-Departed :
    {Cluster Config Index W : Type 0} (h : Host Cluster Config Index W) (req : Key) (p : State h)
    → Departed h req p.world
    → (lookup (cluster_name req) (reconcile h req p).1.clusters ≡ none)
      × ((reconcile h req p).0.1 ≡ none)
unfolding reconcile reconcile_found
reconcile-Departed h req p (gone e x y) =
    (ground (arith, lookup-remove_cluster h (cluster_name req) p), ground arith)
reconcile-Departed h req p (leaving mcp x y) =
    (ground (arith, lookup-remove_cluster h (cluster_name req) p), ground arith)
