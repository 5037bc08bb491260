-- ===== src/Multicluster/Sequential/Creation.antt =====
-- createAndEngageCluster, of a call that does not overlap with others, as steps of the interleaved model.
use controlplane_operator.Base.{
  ℕ, suc, String, ◌≡◌, refl, ap, sym, subst, ◌∙◌, inl, inr, Bool-cases, Option, Option-cases,
  Result-cases, effect_cases, none, some, List, [], ◌∷◌, Error, insert, arith,
}
use controlplane_operator.Api.{ManagedControlPlane}
use controlplane_operator.Multicluster.Provider.{
  ActiveCluster, Host, State, remove_cluster, store as stored, apply_indexers,
  reconcile_managed_addons, engage_stored, ensure_and_engage, start_cluster,
  create_and_engage_cluster,
}
use controlplane_operator.Multicluster.Interleaving.{
  Creation, resting, applying, applied, System, make, read_lock, apply_indexer, apply_fails,
  read_unlock, sync_fails, store,
}
use controlplane_operator.Multicluster.Interleaving.Calm.{CalmReach, none_yet, calmly}
use controlplane_operator.Multicluster.Sequential.{
  up, up-insert, IsIndexing, CalmReach-trans, at_rest, Runs, arrives, world_only, removes,
}

-- Where the loop of applyIndexers ends.
abbrev landed : {Cluster Index : Type 0} → String → Cluster → Option Error → Creation Cluster Index
landed key cl none = applying key cl []
landed key cl (some e) = resting

module _ {Cluster Config Index W : Type 0} (h : Host Cluster Config Index W)
    (observed : W → List (Cluster × Index)) (indexing : IsIndexing h observed) where
  apply_loop :
      (key : String) (cl : Cluster) (rest : List Index) (s : System Cluster Index) (w : W)
      → s.creation ≡ applying key cl rest
      → s.indexed ≡ observed w
      → CalmReach s (record s {
        creation = landed key cl (apply_indexers h cl rest w).0;
        indexed = observed (apply_indexers h cl rest w).1;
      })
  unfolding apply_indexers
  apply_loop key cl [] s w at seen =
      subst (λ c. CalmReach s (record s { creation = c; indexed = observed w })) at
        (subst (λ ix. CalmReach s (record s { indexed = ix })) seen none_yet)
  apply_loop key cl (idx ∷ rest) s w at seen =
      let w' = (h.index_field cl idx w).1 in
      elim (effect_cases (h.index_field cl idx w)) [
        | inl e ↦
            let added : observed w' ≡ (cl, idx) ∷ observed w =
              indexing.adds cl idx w (ap (λ (r : Option Error × W). r.0) e) in
            let t : System Cluster Index = record s {
              creation = applying key cl rest;
              indexed = (cl, idx) ∷ s.indexed;
            } in
            let later =
              apply_loop key cl rest t w' refl (ap (λ ix. (cl, idx) ∷ ix) seen ∙ sym added) in
            rw e (
              CalmReach-trans
                (calmly none_yet (apply_indexer key cl idx rest at refl) (λ k c x. cc)) later)
        | inr (x, e) ↦
            let kept : s.indexed ≡ observed w' =
              seen ∙ sym (indexing.refuses cl idx w (ap (λ (r : Option Error × W). r.0) e)) in
            rw e (
              subst (λ ix. CalmReach s (record s { creation = resting; indexed = ix })) kept
                (calmly none_yet (apply_fails key cl (idx ∷ rest) at refl) (λ k c y. cc)))
      ]

  module _ (failed : List Index) (key : String) where
    engage_stored-Runs :
        (cl : Cluster) (ctx : ℕ) (p : State h)
        → Runs h observed p failed (engage_stored h key cl ctx p).1 failed
    unfolding engage_stored
    engage_stored-Runs cl ctx p =
        let w = (h.engage ctx key cl p.world).1 in
        let same = world_only h observed failed p w (indexing.engages ctx key cl p.world) in
        elim (Option-cases (h.engage ctx key cl p.world).0) [
          | inl e ↦
              arrives h observed failed p ((engage_stored h key cl ctx p).1)
                (record p { world = w }) (ground arith) same
          | inr (x, e) ↦
              arrives h observed failed p ((engage_stored h key cl ctx p).1)
                (remove_cluster h key (record p { world = w })) (ground arith)
                (CalmReach-trans same (removes h observed failed key (record p { world = w })))
        ]

    addons_observed :
        (cl : Cluster) (w : W) → observed (reconcile_managed_addons h cl w).1 ≡ observed w
    unfolding reconcile_managed_addons
    addons_observed cl w = ground (arith, indexing.ensures cl w)

    ensure_and_engage-Runs :
        (cl : Cluster) (ctx : ℕ) (p : State h)
        → Runs h observed p failed (ensure_and_engage h key cl ctx p).1 failed
    unfolding ensure_and_engage
    ensure_and_engage-Runs cl ctx p =
        let w = (reconcile_managed_addons h cl p.world).1 in
        let same = world_only h observed failed p w (addons_observed cl p.world) in
        elim (Option-cases (reconcile_managed_addons h cl p.world).0) [
          | inl e ↦
              arrives h observed failed p ((ensure_and_engage h key cl ctx p).1)
                ((engage_stored h key cl ctx (record p { world = w })).1) (ground arith)
                (CalmReach-trans same (engage_stored-Runs cl ctx (record p { world = w })))
          | inr (x, e) ↦
              arrives h observed failed p ((ensure_and_engage h key cl ctx p).1)
                (record p { world = w }) (ground arith) same
        ]

    -- The state while a cluster waits to be stored.
    abbrev waiting : Cluster → State h → System Cluster Index
    waiting cl p = record (at_rest h observed p failed) { creation = applied key cl }

    start_cluster-Runs :
        (hash : String) (cl : Cluster) (p : State h)
        → CalmReach (waiting cl p) (at_rest h observed (start_cluster h key cl hash p).1 failed)
    unfolding start_cluster stored
    start_cluster-Runs hash cl p =
        let synced = h.wait_for_cache_sync cl p.contexts (h.start cl p.contexts p.world) in
        let w = synced.1 in
        let same : observed w ≡ observed p.world =
          indexing.syncs cl p.contexts (h.start cl p.contexts p.world)
          ∙ indexing.starts cl p.contexts p.world in
        let ac : ActiveCluster Cluster = record {
          cluster = cl;
          cancel = p.contexts;
          hash = hash;
        } in
        let s = waiting cl p in
        elim (Bool-cases synced.0) [
          | inl e ↦
              let q : State h =
                stored h key cl p.contexts hash
                  (record p { contexts = suc p.contexts; world = w }) in
              let enters : CalmReach s (at_rest h observed q failed) =
                subst
                  (λ ix. CalmReach s (record s {
                    creation = resting;
                    clusters = up (insert key ac p.clusters);
                    indexed = ix;
                  }))
                  (sym same)
                  (calmly none_yet
                    (store key cl refl (
                      ap (λ m. record s { creation = resting; clusters = m })
                        (up-insert key ac p.clusters)))
                    (λ k c x. refl)) in
              let goes : CalmReach s
                  (at_rest h observed (ensure_and_engage h key cl p.contexts q).1 failed) =
                CalmReach-trans enters (ensure_and_engage-Runs cl p.contexts q) in
              let same_end : (ensure_and_engage h key cl p.contexts q).1
                  ≡ (start_cluster h key cl hash p).1 =
                ground arith in
              subst (λ (x : State h). CalmReach s (at_rest h observed x failed)) same_end goes
          | inr e ↦
              let q : State h = record p {
                contexts = suc p.contexts;
                cancelled = p.contexts ∷ p.cancelled;
                world = w;
              } in
              let gives_up : CalmReach s (at_rest h observed q failed) =
                subst (λ ix. CalmReach s (record s { creation = resting; indexed = ix })) (sym same)
                  (calmly none_yet (sync_fails key cl refl refl) (λ k c x. refl)) in
              let same_end : q ≡ (start_cluster h key cl hash p).1 = ground arith in
              subst (λ (x : State h). CalmReach s (at_rest h observed x failed)) same_end gives_up
        ]

    pub create_and_engage_cluster-Runs :
        (mcp : ManagedControlPlane) (cfg : Config) (hash : String) (p : State h)
        → Runs h observed p failed (create_and_engage_cluster h key mcp cfg hash p).1 failed
    unfolding create_and_engage_cluster
    create_and_engage_cluster-Runs mcp cfg hash p =
        let w = (h.new_cluster mcp cfg p.world).1 in
        let same = indexing.creates mcp cfg p.world in
        elim (Result-cases (h.new_cluster mcp cfg p.world).0) [
          | inr (x, e) ↦
              arrives h observed failed p ((create_and_engage_cluster h key mcp cfg hash p).1)
                (record p { world = w }) (ground arith) (world_only h observed failed p w same)
          | inl (cl, e) ↦
              let p1 : State h = record p { world = w } in
              let made_from = world_only h observed failed p w same in
              let s : System Cluster Index = record (at_rest h observed p1 failed) {
                creation = applying key cl p.indexers;
              } in
              let begins : CalmReach (at_rest h observed p failed) s =
                calmly (calmly made_from (make key cl refl refl) (λ k c x. cc))
                  (read_lock key cl refl refl) (λ k c x. cc) in
              let w' = (apply_indexers h cl p.indexers w).1 in
              let p2 : State h = record p { world = w' } in
              let loop = apply_loop key cl p.indexers s w refl refl in
              let ends : (o : Option Error)
                  → (apply_indexers h cl p.indexers w).0 ≡ o
                  → CalmReach s
                      (record (at_rest h observed p2 failed) { creation = landed key cl o }) =
                λ o e'.
                  subst
                    (λ x.
                      CalmReach s
                        (record (at_rest h observed p2 failed) { creation = landed key cl x }))
                    e' loop in
              elim (Option-cases (apply_indexers h cl p.indexers w).0) [
                | inr (x, e') ↦
                    arrives h observed failed p ((create_and_engage_cluster h key mcp cfg hash p).1)
                      (p2) (ground arith) (CalmReach-trans begins (ends (some x) e'))
                | inl e' ↦
                    let waits : CalmReach s (waiting cl p2) =
                      calmly (ends none e') (read_unlock key cl refl refl) (λ k c x. cc) in
                    arrives h observed failed p ((create_and_engage_cluster h key mcp cfg hash p).1)
                      ((start_cluster h key cl hash p2).1) (ground arith)
                      (CalmReach-trans begins
                        (CalmReach-trans waits (start_cluster-Runs hash cl p2)))
              ]
        ]
