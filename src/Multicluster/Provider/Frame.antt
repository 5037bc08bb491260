-- ===== src/Multicluster/Provider/Frame.antt =====
-- What a reconcile of one cluster leaves alone: every other cluster, and the indexers.
use controlplane_operator.Base.{
  String, ◌≡◌, refl, sym, subst, false, lookup, lookup-insert, lookup-erase, str_eq, arith, ◌∙◌,
}
use controlplane_operator.Utils.Kubeconfig.{Bytes}
use controlplane_operator.Controller.Kube.{Key}
use controlplane_operator.Multicluster.Provider.{
  Host, State, cluster_name, remove_cluster, store, reconcile,
}
use controlplane_operator.Multicluster.Provider.Registry.{
  Step, pass, drop, abort, enter, Reach, here, next, reconcile-Reach,
}

module _ {Cluster Config Index W : Type 0} (h : Host Cluster Config Index W) (key : String) where
  -- The two states have the same entries but at the key, and the same indexers.
  pub record AgreesOff (p q : State h) : Type 0 where
    pub entries : (j : String) → str_eq key j ≡ false → lookup j q.clusters ≡ lookup j p.clusters
    pub indexes : q.indexers ≡ p.indexers

  pub Step-AgreesOff :
      (kubeconfig_data : Bytes) (p q : State h) → Step h key kubeconfig_data p q → AgreesOff p q
  unfolding store remove_cluster
  Step-AgreesOff kubeconfig_data p q (pass w e) =
      subst (AgreesOff p) (sym e) (record { entries = λ j off. refl; indexes = refl })
  Step-AgreesOff kubeconfig_data p q (drop e) = subst (AgreesOff p) (sym e) (record {
    entries = λ j off. ground (arith, lookup-erase key j p.clusters);
    indexes = ground arith;
  })
  Step-AgreesOff kubeconfig_data p q (abort w e) =
      subst (AgreesOff p) (sym e) (record { entries = λ j off. refl; indexes = refl })
  Step-AgreesOff kubeconfig_data p q (enter cl w origin absent e) =
      subst (AgreesOff p) (sym e) (record {
        entries = λ j off.
            lookup-insert key j
              (record {
                cluster = cl;
                cancel = p.contexts;
                hash = h.hash_kubeconfig kubeconfig_data;
              })
              p.clusters
            ∙ rw off refl;
        indexes = refl;
      })

  Reach-AgreesOff :
      (kubeconfig_data : Bytes) (p q : State h) → Reach h key kubeconfig_data p q → AgreesOff p q
  Reach-AgreesOff kubeconfig_data p q here = record { entries = λ j off. refl; indexes = refl }
  Reach-AgreesOff kubeconfig_data p q (next b s) =
      let before = Reach-AgreesOff kubeconfig_data p _ b in
      let last = Step-AgreesOff kubeconfig_data _ q s in
      record {
        entries = λ j off. last.entries j off ∙ before.entries j off;
        indexes = last.indexes ∙ before.indexes;
      }

-- A reconcile changes no cluster but the one that is reconciled, and no indexer.
pub reconcile-AgreesOff :
    {Cluster Config Index W : Type 0} (h : Host Cluster Config Index W) (req : Key) (p : State h)
    → AgreesOff h (cluster_name req) p (reconcile h req p).1
reconcile-AgreesOff h req p =
    let (kubeconfig_data, r) = reconcile-Reach h req p in
    Reach-AgreesOff h (cluster_name req) kubeconfig_data p (reconcile h req p).1 r
