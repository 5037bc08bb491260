-- ===== src/Multicluster/Sequential/Indexing.antt =====
-- IndexField, of a call that does not overlap with others, as steps of the interleaved model.
use controlplane_operator.Base.{
  String, ◌≡◌, refl, ap, sym, subst, ◌∙◌, inl, inr, Option, effect_cases, List, [], ◌∷◌, ◌++◌,
  Error,
}
use controlplane_operator.Multicluster.Provider.{ActiveCluster, Host, State, index_all, index_field}
use controlplane_operator.Multicluster.Provider.History.{failed_after}
use controlplane_operator.Multicluster.Interleaving.{
  take_at, System, register, index_cluster, index_fails, return,
}
use controlplane_operator.Multicluster.Interleaving.Calm.{CalmReach, none_yet, calmly}
use controlplane_operator.Multicluster.Sequential.{up, IsIndexing, CalmReach-trans, at_rest, Runs}

module _ {Cluster Config Index W : Type 0} (h : Host Cluster Config Index W)
    (observed : W → List (Cluster × Index)) (indexing : IsIndexing h observed) where
  -- The loop of IndexField: it ends at the first cluster that refuses the index.
  index_loop :
      (idx : Index) (rest : List (String × ActiveCluster Cluster)) (w : W)
      (s : System Cluster Index)
      → s.calls ≡ record { index = idx; rest = up rest } ∷ []
      → s.indexed ≡ observed w
      → CalmReach s (record s {
        calls = [];
        indexed = observed (index_all h idx rest w).1;
        failed = failed_after (index_all h idx rest w).0 idx s.failed;
      })
  unfolding index_all take_at
  index_loop idx [] w s at seen =
      subst (λ ix. CalmReach s (record s { calls = []; indexed = ix })) seen
        (calmly none_yet
          (return 0 (record { index = idx; rest = [] }) [] (ap (λ l. take_at 0 l) at) refl refl)
          (λ k c e. refl))
  index_loop idx ((name, ac) ∷ rest) w s at seen =
      let w' = (h.index_field ac.cluster idx w).1 in
      elim (effect_cases (h.index_field ac.cluster idx w)) [
        | inl e ↦
            let added : observed w' ≡ (ac.cluster, idx) ∷ observed w =
              indexing.adds ac.cluster idx w (ap (λ (r : Option Error × W). r.0) e) in
            let t : System Cluster Index = record s {
              calls = record { index = idx; rest = up rest } ∷ [];
              indexed = (ac.cluster, idx) ∷ s.indexed;
            } in
            let later =
              index_loop idx rest w' t refl (ap (λ ix. (ac.cluster, idx) ∷ ix) seen ∙ sym added) in
            let first : CalmReach s t =
              calmly none_yet
                (index_cluster 0 0 (record { index = idx; rest = (name, ac.cluster) ∷ up rest }) []
                  name ac.cluster (up rest) (ap (λ l. take_at 0 l) at) refl refl)
                (λ k c x. refl) in
            rw e (CalmReach-trans first later)
        | inr (x, e) ↦
            let kept : s.indexed ≡ observed w' =
              seen
              ∙ sym (indexing.refuses ac.cluster idx w (ap (λ (r : Option Error × W). r.0) e)) in
            rw e (
              subst
                (λ ix. CalmReach s (record s { calls = []; indexed = ix; failed = idx ∷ s.failed }))
                kept
                (calmly none_yet
                  (index_fails 0 (record { index = idx; rest = (name, ac.cluster) ∷ up rest }) []
                    (ap (λ l. take_at 0 l) at) refl)
                  (λ k c y. refl)))
      ]

  pub index_field-Runs :
      (idx : Index) (p : State h) (failed : List Index)
      → Runs h observed p failed
          (index_field h idx p).1
          (failed_after (index_field h idx p).0 idx failed)
  unfolding index_field
  index_field-Runs idx p failed =
      let s = at_rest h observed p failed in
      let t : System Cluster Index = record s {
        indexers = p.indexers ++ idx ∷ [];
        calls = record { index = idx; rest = up p.clusters } ∷ [];
      } in
      let begins : CalmReach s t =
        calmly none_yet (register idx (λ k c r e. cc) refl) (λ k c e. cc) in
      CalmReach-trans begins (index_loop idx p.clusters p.world t refl refl)
