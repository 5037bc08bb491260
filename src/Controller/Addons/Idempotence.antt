-- ===== src/Controller/Addons/Idempotence.antt =====
-- The bootstrap token is made once.
use controlplane_operator.Base.{
  ◌≡◌, refl, ap, sym, subst, ◌∙◌, inl, inr, Bool, true, false, Bool-cases, Option, none, [], ◌∷◌,
  Error, ok, err, Result-cases, lookup, arith,
}
use controlplane_operator.Api.{ManagedControlPlane}
use controlplane_operator.Controller.Kube.{Key, Secret, Machinery, Client, Renderer}
use controlplane_operator.Controller.Apply.{ApplyOptions, apply, apply_opts, prepare}
use controlplane_operator.Controller.Apply.Prefix.{apply-EachOutcome}
use controlplane_operator.Controller.AdminConfig.{entry}
use controlplane_operator.Controller.Addons.Token.{BootstrapToken, new_bootstrap_token}
use controlplane_operator.Controller.Addons.{
  AddonHost, token_key, read_token, token_secret_of, create_token, ensure_bootstrap_token,
}

abbrev pub secret_key : Secret → Key
secret_key s = record { namespace = s.namespace; name = s.name }

-- The host cluster has a secret whose patch succeeded, as it was applied.
pub record Keeps {Obj W : Type 0} (m : Machinery Obj) (c : Client Obj W) (render : Renderer Obj)
    : Type 0 where
  pub keeps :
      (opts : ApplyOptions) (s : Secret) (sent : Obj) (w : W)
      → prepare m c opts (render.secret s) ≡ ok sent
      → (c.patch sent opts.field_owner opts.force w).0 ≡ none
      → c.get_secret (secret_key s) (c.patch sent opts.field_owner opts.force w).1 ≡ ok s

module _ {Obj W : Type 0} (m : Machinery Obj) (c : Client Obj W) (render : Renderer Obj)
    (a : AddonHost Obj W) (has_scheme : Bool) where
  -- A secret that was applied without an error is there.
  kept_there :
      Keeps m c render
      → (opts : ApplyOptions) (s : Secret) (w : W)
      → (apply m c has_scheme opts (render.secret s ∷ []) w).0 ≡ none
      → c.get_secret (secret_key s) (apply m c has_scheme opts (render.secret s ∷ []) w).1 ≡ ok s
  kept_there laws opts s w applied =
      elim (apply-EachOutcome m c opts has_scheme (render.secret s ∷ []) w) [
        | inl (why, failed, same) ↦ let clash : false ≡ true = rw applied at failed in cc
        | inr r ↦ elim r [
          | inr (e, stopped, at) ↦ cc
          | inl (good, rest) ↦
              let (sent, prepared, patched, last) = rest in
              subst (λ x. c.get_secret (secret_key s) x ≡ ok s) last
                (laws.keeps opts s sent w prepared patched)
        ]
      ]

  -- Go's conversions of the token to bytes and back give the token.
  pub record Converts (tok : BootstrapToken) : Type 0 where
    pub id_back : a.text (a.bytes tok.id) ≡ tok.id
    pub secret_back : a.text (a.bytes tok.secret) ≡ tok.secret

  read_token-token_secret_of :
      (mcp : ManagedControlPlane) (tok : BootstrapToken)
      → Converts tok
      → read_token m c render a has_scheme (token_secret_of m c render a has_scheme mcp tok) ≡ tok
  unfolding read_token token_secret_of entry lookup
  read_token-token_secret_of mcp tok back = rw (back.id_back, back.secret_back) refl

  ensure_found :
      (mcp : ManagedControlPlane) (w : W) (sec : Secret)
      → c.get_secret (token_key m c render a has_scheme mcp) w ≡ ok sec
      → ensure_bootstrap_token m c render a has_scheme mcp w
        ≡ (ok (read_token m c render a has_scheme sec), w)
  unfolding ensure_bootstrap_token
  ensure_found mcp w sec found = rw (ensure_bootstrap_token, found) refl

  ensure_absent :
      (mcp : ManagedControlPlane) (w : W) (e : Error) (tok : BootstrapToken)
      → c.get_secret (token_key m c render a has_scheme mcp) w ≡ err e
      → (ensure_bootstrap_token m c render a has_scheme mcp w).0 ≡ ok tok
      → ensure_bootstrap_token m c render a has_scheme mcp w
        ≡ create_token m c render a has_scheme mcp w
  unfolding ensure_bootstrap_token
  ensure_absent mcp w e tok absent ensured = elim (Bool-cases (m.is_not_found e)) [
    | inl missing ↦ rw (ensure_bootstrap_token, absent) (rw missing refl)
    | inr real ↦
        let read = rw (ensure_bootstrap_token, absent) at ensured in
        let failed = rw real at read in cc
  ]

  -- The apply of the secret with a token that was made.
  abbrev stored : ManagedControlPlane → BootstrapToken → W → Option Error × W
  stored mcp t w =
      apply m c has_scheme (apply_opts mcp)
        (render.secret (token_secret_of m c render a has_scheme mcp t) ∷ [])
        (new_bootstrap_token a.generate_token w).1

  create_token_stored :
      (mcp : ManagedControlPlane) (w : W) (t : BootstrapToken)
      → (new_bootstrap_token a.generate_token w).0 ≡ ok t
      → (stored mcp t w).0 ≡ none
      → create_token m c render a has_scheme mcp w ≡ (ok t, (stored mcp t w).1)
  unfolding create_token
  create_token_stored mcp w t made kept = rw (create_token, made) (rw kept refl)

  -- A token is returned only if it was made and stored.
  create_token-ok :
      (mcp : ManagedControlPlane) (w : W) (tok : BootstrapToken)
      → (create_token m c render a has_scheme mcp w).0 ≡ ok tok
      → ((new_bootstrap_token a.generate_token w).0 ≡ ok tok) × ((stored mcp tok w).0 ≡ none)
  unfolding create_token
  create_token-ok mcp w tok e = ground arith

  created_kept :
      Keeps m c render
      → (mcp : ManagedControlPlane) (w : W) (tok : BootstrapToken)
      → (create_token m c render a has_scheme mcp w).0 ≡ ok tok
      → c.get_secret
          (token_key m c render a has_scheme mcp)
          (create_token m c render a has_scheme mcp w).1
        ≡ ok (token_secret_of m c render a has_scheme mcp tok)
  unfolding token_secret_of
  created_kept laws mcp w tok e =
      let (made, kept) = create_token-ok mcp w tok e in
      let ends = ap (λ r. r.1) (create_token_stored mcp w tok made kept) in
      ap (λ x. c.get_secret (token_key m c render a has_scheme mcp) x) ends
      ∙ kept_there laws (apply_opts mcp) (token_secret_of m c render a has_scheme mcp tok) _ kept

  -- Once a token was ensured, whether it was found or made, the next call gives the same token and
  -- changes nothing. It is assumed that the host cluster keeps a secret whose patch succeeded, and that
  -- Go's conversions of the token to bytes and back give the token.
  pub ensure_bootstrap_token_idem :
      Keeps m c render
      → (mcp : ManagedControlPlane) (w : W) (tok : BootstrapToken) → Converts tok
      → (ensure_bootstrap_token m c render a has_scheme mcp w).0 ≡ ok tok
      → let w' = (ensure_bootstrap_token m c render a has_scheme mcp w).1 in
        ensure_bootstrap_token m c render a has_scheme mcp w' ≡ (ok tok, w')
  ensure_bootstrap_token_idem laws mcp w tok back ensured =
      elim (Result-cases (c.get_secret (token_key m c render a has_scheme mcp) w)) [
        | inl (sec, found) ↦
            let first = ensure_found mcp w sec found in
            let unchanged = ap (λ r. r.1) first in
            ap (λ x. ensure_bootstrap_token m c render a has_scheme mcp x) unchanged
            ∙ first
            ∙ ap (λ t. (t, w)) (sym (ap (λ r. r.0) first) ∙ ensured)
            ∙ ap (λ x. (ok tok, x)) (sym unchanged)
        | inr (e, absent) ↦
            let first = ensure_absent mcp w e tok absent ensured in
            let kept = created_kept laws mcp w tok (sym (ap (λ r. r.0) first) ∙ ensured) in
            let w' = (ensure_bootstrap_token m c render a has_scheme mcp w).1 in
            let there =
              ap (λ x. c.get_secret (token_key m c render a has_scheme mcp) x) (ap (λ r. r.1) first)
              ∙ kept in
            ensure_found mcp w' (token_secret_of m c render a has_scheme mcp tok) there
            ∙ ap (λ t. (ok t, w')) (read_token-token_secret_of mcp tok back)
      ]
