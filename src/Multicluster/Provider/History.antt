-- ===== src/Multicluster/Provider/History.antt =====
-- pkg/controller/multicluster/provider.go: a history of calls that do not overlap.
use controlplane_operator.Base.{Option, none, some, List, [], ◌∷◌, Error}
use controlplane_operator.Controller.Kube.{Key}
use controlplane_operator.Multicluster.Provider.{Host, State, index_field, reconcile}

-- What is called on the provider.
pub data Operation (Index : Type 0) : Type 0 where
  reconciles : Key → Operation Index
  indexes : Index → Operation Index

-- An index whose call has failed.
abbrev pub failed_after : {Index : Type 0} → Option Error → Index → List Index → List Index
failed_after none idx failed = failed
failed_after (some e) idx failed = idx ∷ failed

module _ {Cluster Config Index W : Type 0} (h : Host Cluster Config Index W) where
  -- One operation; of an IndexField call that fails the index is kept.
  unfoldable pub operate : Operation Index → State h × List Index → State h × List Index
  operate (reconciles req) (p, failed) = ((reconcile h req p).1, failed)
  operate (indexes idx) (p, failed) =
      let (e, q) = index_field h idx p in (q, failed_after e idx failed)

  unfoldable pub run : List (Operation Index) → State h × List Index → State h × List Index
  run [] s = s
  run (op ∷ ops) s = run ops (operate op s)
