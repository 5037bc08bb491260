-- ===== src/Controller/Addons/Completion.antt =====
-- What has been done when the add-ons of an engaged cluster are reconciled with an empty result.
use controlplane_operator.Base.{
  ◌≡◌, ◌≢◌, ◌⊎◌, refl, ap, sym, ◌∙◌, inl, inr, Bool, true, false, Bool-cases, Option, none, some,
  List, [], ◌∷◌, Error, ok, arith,
}
use controlplane_operator.Api.{ManagedControlPlane}
use controlplane_operator.Utils.Kubeconfig.{Bytes}
use controlplane_operator.Controller.Kube.{
  Reply, Machinery, IsMachinery, Client, Renderer, done, requeue_later,
}
use controlplane_operator.Controller.Endpoint.{on_error}
use controlplane_operator.Controller.AdminConfig.{is_empty}
use controlplane_operator.Controller.Addons.Token.{BootstrapToken}
use controlplane_operator.Controller.Addons.{
  AddonHost, ensure_bootstrap_token, get_cluster_ca, ensure_konnectivity_tls_data, apply_managed,
  apply_built, apply_addons, reconcile_addons, apply_join, reconcile_kubelet_join_resources,
  after_addons, after_join, reconcile_managed,
}

later≢done : {o p : Option Error} → ◌≢◌ {A = Reply} (requeue_later, o) (done, p)
later≢done e = omega (arith, ap (λ (r : Reply). r.0.requeue_after) e)

module _ {Obj W : Type 0} (m : Machinery Obj) (c : Client Obj W) (render : Renderer Obj)
    (a : AddonHost Obj W) (has_scheme : Bool) (cl : Client Obj W) (mcp : ManagedControlPlane) where
  -- The join resources were applied with the ensured token and the authority of the cluster.
  pub record Joined (w w' : W) : Type 0 where
    pub tok : BootstrapToken
    pub ensured : (ensure_bootstrap_token m c render a has_scheme mcp w).0 ≡ ok tok
    pub ca_known :
        is_empty
          (get_cluster_ca m c render a has_scheme mcp
            (ensure_bootstrap_token m c render a has_scheme mcp w).1).0
        ≡ false
    pub resources : List Obj
    pub built :
        a.join mcp tok
          (get_cluster_ca m c render a has_scheme mcp
            (ensure_bootstrap_token m c render a has_scheme mcp w).1).0
        ≡ some resources
    pub joins :
        apply_managed m c render a has_scheme cl resources
          (ensure_bootstrap_token m c render a has_scheme mcp w).1
        ≡ (none, w')

  abbrev here : W → W
  here w = (ensure_bootstrap_token m c render a has_scheme mcp w).1

  abbrev authority : W → Bytes
  authority w = (get_cluster_ca m c render a has_scheme mcp (here w)).0

  -- An effect that ends the reconcile returned no error.
  effect_done :
      (r : Option Error × W)
      → (on_error r (λ e. (done, some e)) (λ w. ((done, none), w))).0 ≡ (done, none)
      → r ≡ (none, (on_error r (λ e. (done, some e)) (λ w. ((done, none), w))).1)
  effect_done (none, w) h = refl
  effect_done (some e, w) h = cc

  built_cases :
      (built : Option (List Obj)) (w w' : W)
      → apply_built m c render a has_scheme cl built w ≡ (none, w')
      → (objs : List Obj) × (built ≡ some objs)
        × (apply_managed m c render a has_scheme cl objs w ≡ (none, w'))
  unfolding apply_built
  built_cases none w w' e = cc
  built_cases (some objs) w w' e = (objs, refl, e)

  join_reached :
      (w : W) (r : Reply × W)
      → reconcile_kubelet_join_resources m c render a has_scheme cl mcp w ≡ r
      → r.0 ≡ (done, none)
      → (tok : BootstrapToken) × ((ensure_bootstrap_token m c render a has_scheme mcp w).0 ≡ ok tok)
        × (apply_join m c render a has_scheme cl mcp tok (authority w) (here w) ≡ r)
  unfolding reconcile_kubelet_join_resources
  join_reached w r e h = ground arith

  join_finishes :
      (tok : BootstrapToken) (ca_pem : Bytes) (w : W)
      → (apply_join m c render a has_scheme cl mcp tok ca_pem w).0 ≡ (done, none)
      → (is_empty ca_pem ≡ false)
        × (apply_built m c render a has_scheme cl (a.join mcp tok ca_pem) w
            ≡ (none, (apply_join m c render a has_scheme cl mcp tok ca_pem w).1))
  unfolding apply_join
  join_finishes tok [] w h = absurd (later≢done h)
  join_finishes tok (b ∷ bs) w h = (refl, effect_done _ h)

  join-Joined :
      (w : W) (r : Reply × W)
      → reconcile_kubelet_join_resources m c render a has_scheme cl mcp w ≡ r
      → r.0 ≡ (done, none)
      → Joined w r.1
  join-Joined w r e h =
      let (tok, ensured, rest) = join_reached w r e h in
      let (known, joins) =
        join_finishes tok (authority w) (here w) (ap (λ (q : Reply × W). q.0) rest ∙ h) in
      let (objs, built, applied) =
        built_cases _ (here w) r.1 (joins ∙ ap (λ (q : Reply × W). (none, q.1)) rest) in
      record {
        tok = tok;
        ensured = ensured;
        ca_known = known;
        resources = objs;
        built = built;
        joins = applied;
      }

  -- The two konnectivity secrets were there, their copies and the add-ons were applied.
  pub record Supplied (w w' : W) : Type 0 where
    pub secrets : List Obj
    pub copies : ensure_konnectivity_tls_data m c render a has_scheme mcp w ≡ (secrets, none)
    pub present : secrets ≢ []
    pub supplied : W
    pub hands_over : apply_managed m c render a has_scheme cl secrets w ≡ (none, supplied)
    pub addons : List Obj
    pub built : a.addons mcp ≡ some addons
    pub installs : apply_managed m c render a has_scheme cl addons supplied ≡ (none, w')

  install : W → Reply × W
  install w =
      on_error (apply_built m c render a has_scheme cl (a.addons mcp) w) (λ e. (done, some e))
        (λ w'. ((done, none), w'))

  -- The secrets were applied, and the reconcile went on with the add-ons.
  handed_over :
      (q : Option Error × W)
      → (on_error q (λ e. (done, some e)) install).0 ≡ (done, none)
      → (q ≡ (none, q.1)) × (on_error q (λ e. (done, some e)) install ≡ install q.1)
  handed_over (none, w) h = (refl, refl)
  handed_over (some e, w) h = cc

  apply_addons_lem :
      (secrets : List Obj) (w : W)
      → apply_addons m c render a has_scheme cl mcp secrets w
        ≡ on_error
            (apply_managed m c render a has_scheme cl secrets w)
            (λ e. (done, some e))
            install
  unfolding apply_addons install
  apply_addons_lem secrets w = refl

  secrets_reached :
      (w : W) (r : Reply × W)
      → reconcile_addons m c render a has_scheme cl mcp w ≡ r
      → r.0 ≡ (done, none)
      → (s : Obj) × (ss : List Obj) × ((ensure_konnectivity_tls_data m c render a has_scheme mcp
            w).0
          ≡ s ∷ ss)
        × ((ensure_konnectivity_tls_data m c render a has_scheme mcp w).1 ≡ none)
        × (apply_addons m c render a has_scheme cl mcp (s ∷ ss) w ≡ r)
  unfolding reconcile_addons
  secrets_reached w r e h = ground arith

  addons-Supplied :
      (w : W) (r : Reply × W)
      → reconcile_addons m c render a has_scheme cl mcp w ≡ r
      → r.0 ≡ (done, none)
      → Supplied w r.1
  unfolding install
  addons-Supplied w r e h =
      let (s, ss, some_secrets, fine, rest) = secrets_reached w r e h in
      let whole = sym (apply_addons_lem (s ∷ ss) w) ∙ rest in
      let handed = handed_over _ (ap (λ (q : Reply × W). q.0) whole ∙ h) in
      let last = sym handed.1 ∙ whole in
      let (objs, built, applied) = built_cases (a.addons mcp) _ r.1 (
        effect_done _ (ap (λ (q : Reply × W). q.0) last ∙ h)
        ∙ ap (λ (q : Reply × W). (none, q.1)) last) in
      record {
        secrets = s ∷ ss;
        copies =
            ap (λ x. (x, (ensure_konnectivity_tls_data m c render a has_scheme mcp w).1))
              some_secrets
            ∙ ap (λ x. (s ∷ ss, x)) fine;
        present = λ p. cc;
        supplied = (apply_managed m c render a has_scheme cl (s ∷ ss) w).1;
        hands_over = handed.0;
        addons = objs;
        built = built;
        installs = applied;
      }

  pub data Finished (w w' : W) : Type 0 where
    -- The managed add-on is not there, and nothing was done.
    released :
        (e : Error)
        → a.get_managed_addon cl w ≡ some e
        → m.is_not_found e ≡ true
        → w' ≡ w
        → Finished w w'
    finished : (joined : W) → Joined w joined → Supplied joined w' → Finished w w'

  managed-cases :
      (w : W) (r : Reply × W)
      → reconcile_managed m c render a has_scheme cl mcp w ≡ r
      → r.0 ≡ (done, none)
      → ((e : Error) × (a.get_managed_addon cl w ≡ some e) × (m.is_not_found e ≡ true) × (r.1 ≡ w))
        ⊎ (after_join m c render a has_scheme cl mcp
              (reconcile_kubelet_join_resources m c render a has_scheme cl mcp w)
            ≡ r)
  unfolding reconcile_managed
  managed-cases w r e h = ground arith

  join_passed :
      (q r : Reply × W)
      → after_join m c render a has_scheme cl mcp q ≡ r
      → r.0 ≡ (done, none)
      → (q.0.1 ≡ none)
        × (m.is_zero q.0.0 ≡ true)
        × (after_addons m c render a has_scheme cl
              (reconcile_addons m c render a has_scheme cl mcp q.1)
            ≡ r)
  unfolding after_join
  join_passed ((res, some x), w) r e h = cc
  join_passed ((res, none), w) r e h = elim (Bool-cases (m.is_zero res)) [
    | inl z ↦ (refl, z, sym (rw z refl) ∙ e)
    | inr z ↦ absurd (later≢done (rw z at (ap (λ (p : Reply × W). p.0) e ∙ h)))
  ]

  addons_passed :
      IsMachinery m
      → (q r : Reply × W) → after_addons m c render a has_scheme cl q ≡ r
      → r.0 ≡ (done, none)
      → q ≡ r
  unfolding after_addons
  addons_passed laws ((res, some x), w) r e h = cc
  addons_passed laws ((res, none), w) r e h = elim (Bool-cases (m.is_zero res)) [
    | inl z ↦
        let empty = (laws.zero_iff res).0 z in ap (λ x. ((x, none), w)) empty ∙ sym (rw z refl) ∙ e
    | inr z ↦ sym (rw z refl) ∙ e
  ]

  -- If the add-ons of an engaged cluster are reconciled with an empty result and no error, then either the
  -- managed add-on was not there and nothing was done, or the join resources were applied with the
  -- ensured token and the cluster's authority, and after them the copies of the konnectivity secrets
  -- and the add-ons, all without an error.
  pub reconcile_managed-Finished :
      IsMachinery m
      → (w : W) → (reconcile_managed m c render a has_scheme cl mcp w).0 ≡ (done, none)
      → Finished w (reconcile_managed m c render a has_scheme cl mcp w).1
  reconcile_managed-Finished laws w h =
      let r = reconcile_managed m c render a has_scheme cl mcp w in
      elim (managed-cases w r refl h) [
        | inl (e, absent, missing, same) ↦ released e absent missing same
        | inr rest ↦
            let q = reconcile_kubelet_join_resources m c render a has_scheme cl mcp w in
            let (fine, zero, later) = join_passed q r rest h in
            let empty : q.0 ≡ (done, none) =
              ap (λ x. (x, q.0.1)) ((laws.zero_iff q.0.0).0 zero) ∙ ap (λ x. (done, x)) fine in
            let last = addons_passed laws _ r later h in
            finished q.1 (join-Joined w q refl empty) (addons-Supplied q.1 r last h)
      ]
