-- ===== src/Multicluster/Provider/Contexts.antt =====
-- The contexts that the provider makes: none leaks, and none is cancelled twice.
use controlplane_operator.Base.{
  ℕ, ◌+◌, String, ◌≡◌, refl, sym, subst, inl, inr, Bool-cases, none, some, Option-cases, List, [],
  ◌∷◌, lookup, insert, erase, Unique, Unique-insert, Unique-erase, erase_absent, eq_iff, str_eq,
  arith, nat_eq, ltb, if◌then◌else◌,
}
use controlplane_operator.Utils.Kubeconfig.{Bytes}
use controlplane_operator.Controller.Kube.{Key}
use controlplane_operator.Multicluster.Provider.{
  ActiveCluster, Host, State, cluster_name, remove_cluster, store, reconcile,
}
use controlplane_operator.Multicluster.Provider.Registry.{
  Step, pass, drop, abort, enter, Reach, here, next, reconcile-Reach,
}

abbrev pub hit : ℕ → ℕ → ℕ
hit n m = if nat_eq n m then 1 else 0

abbrev pub tally : ℕ → List ℕ → ℕ
tally n [] = 0
tally n (m ∷ ms) = hit n m + tally n ms

-- How many clusters hold context n.
abbrev pub held : {Cluster : Type 0} → ℕ → List (String × ActiveCluster Cluster) → ℕ
held n [] = 0
held n ((k, ac) ∷ m) = hit n ac.cancel + held n m

module _ {Cluster : Type 0} where
  held-insert :
      (n : ℕ) (k : String) (ac : ActiveCluster Cluster) (m : List (String × ActiveCluster Cluster))
      → lookup k m ≡ none
      → held n (insert k ac m) ≡ hit n ac.cancel + held n m
  unfolding lookup insert
  held-insert n k ac [] absent = refl
  held-insert n k ac ((j, bc) ∷ m) absent = elim (Bool-cases (str_eq j k)) [
    | inl same ↦ ground arith
    | inr other ↦
        let later = rw other at absent in rw other (omega (arith, held-insert n k ac m later))
  ]

  held-erase :
      (n : ℕ) (k : String) (ac : ActiveCluster Cluster) (m : List (String × ActiveCluster Cluster))
      → Unique m
      → lookup k m ≡ some ac
      → held n m ≡ hit n ac.cancel + held n (erase k m)
  unfolding lookup erase
  held-erase n k ac [] u e = ground arith
  held-erase n k ac ((j, bc) ∷ m) (absent, u) e = elim (Bool-cases (str_eq j k)) [
    | inl same ↦
        let found : some bc ≡ some ac = rw same at e in
        let gone : lookup k m ≡ none = rw ((eq_iff j k).0 same) at absent in
        let cancels : bc.cancel ≡ ac.cancel = cc in
        rw same (rw (erase_absent k m gone) (rw cancels refl))
    | inr other ↦ let later = rw other at e in rw other (omega (arith, held-erase n k ac m u later))
  ]

module _ {Cluster Config Index W : Type 0} (h : Host Cluster Config Index W) where
  -- Each context that was made is held by one cluster or was cancelled once, never both.
  pub record Accounted (p : State h) : Type 0 where
    pub unique : Unique p.clusters
    pub accounts :
        (n : ℕ) → held n p.clusters + tally n p.cancelled ≡ (if ltb n p.contexts then 1 else 0)

  remove_cluster-Accounted :
      (key : String) (p : State h) → Accounted p → Accounted (remove_cluster h key p)
  unfolding remove_cluster
  remove_cluster-Accounted key p a = elim (Option-cases (lookup key p.clusters)) [
    | inl e ↦ subst Accounted (ground arith) a
    | inr (ac, e) ↦
        let q : State h = record p {
          clusters = erase key p.clusters;
          cancelled = ac.cancel ∷ p.cancelled;
        } in
        let removed : q ≡ remove_cluster h key p = ground arith in
        subst Accounted removed (record {
          unique = Unique-erase key p.clusters a.unique;
          accounts = λ n. omega (arith, a.accounts n, held-erase n key ac p.clusters a.unique e);
        })
  ]

  Step-Accounted :
      (key : String) (kubeconfig_data : Bytes) (p q : State h)
      → Accounted p
      → Step h key kubeconfig_data p q
      → Accounted q
  unfolding store
  Step-Accounted key kubeconfig_data p q a (pass w e) =
      subst Accounted (sym e) (record { unique = a.unique; accounts = a.accounts })
  Step-Accounted key kubeconfig_data p q a (drop e) =
      subst Accounted (sym e) (remove_cluster-Accounted key p a)
  Step-Accounted key kubeconfig_data p q a (abort w e) =
      subst Accounted (sym e)
        (record { unique = a.unique; accounts = λ n. ground (arith, a.accounts n) })
  Step-Accounted key kubeconfig_data p q a (enter cl w origin absent e) =
      subst Accounted (sym e) (record {
        unique = Unique-insert key _ p.clusters a.unique;
        accounts = λ n. ground (
          arith,
          a.accounts n,
          held-insert n key
              (record {
                cluster = cl;
                cancel = p.contexts;
                hash = h.hash_kubeconfig kubeconfig_data;
              })
              p.clusters absent,
        );
      })

  Reach-Accounted :
      (key : String) (kubeconfig_data : Bytes) (p q : State h)
      → Accounted p
      → Reach h key kubeconfig_data p q
      → Accounted q
  Reach-Accounted key kubeconfig_data p q a here = a
  Reach-Accounted key kubeconfig_data p q a (next b s) =
      Step-Accounted key kubeconfig_data _ q (Reach-Accounted key kubeconfig_data p _ a b) s

-- A reconcile keeps the account of the contexts, whatever the libraries answer.
pub reconcile-Accounted :
    {Cluster Config Index W : Type 0} (h : Host Cluster Config Index W) (req : Key) (p : State h)
    → Accounted h p
    → Accounted h (reconcile h req p).1
reconcile-Accounted h req p a =
    let (kubeconfig_data, r) = reconcile-Reach h req p in
    Reach-Accounted h (cluster_name req) kubeconfig_data p (reconcile h req p).1 a r
