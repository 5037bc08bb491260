-- ===== src/Controller/AdminConfig/Published.antt =====
-- What has happened when the administrator's kubeconfig is reconciled with an empty result.
use controlplane_operator.Base.{
  ◌≡◌, ◌≢◌, refl, ap, sym, subst, ◌∙◌, Bool, false, Option, none, some, [], ◌∷◌, Error, ok, arith,
  eq_iff,
}
use controlplane_operator.Api.{ManagedControlPlane}
use controlplane_operator.Utils.Kubeconfig.{Bytes}
use controlplane_operator.Cluster.Admin
use controlplane_operator.Controller.Kube.{
  Secret, Reply, Machinery, Client, IsRetrying, Renderer, done, requeue_later,
}
use controlplane_operator.Controller.Apply.{apply, apply_opts}
use controlplane_operator.Controller.Endpoint.Stored.{Stored, admin_secret_ref-Stored}
use controlplane_operator.Controller.Endpoint.{on_error, update_mcp_admin_secret_ref}
use controlplane_operator.Controller.AdminConfig.{
  entry, is_empty, admin_kubeconfig, kubeconfig_secret, publish, with_admin_client,
  reconcile_admin_config,
}

later≢done : {o : Option Error} {p : Option Error} → ◌≢◌ {A = Reply} (requeue_later, o) (done, p)
later≢done e = omega (arith, ap (λ (r : Reply). r.0.requeue_after) e)

module _ {Obj W : Type 0} (m : Machinery Obj) (c : Client Obj W) (render : Renderer Obj)
    (has_scheme : Bool) (mcp : ManagedControlPlane) where
  -- The apply of the secret with these bytes.
  abbrev pub applied : Bytes → W → Option Error × W
  applied bytes w =
      apply m c has_scheme (apply_opts mcp) (render.secret (kubeconfig_secret mcp bytes) ∷ []) w

  pub record Published (w w' : W) : Type 0 where
    pub address_known : mcp.status.address ≢ ""
    pub admin_client : Secret
    pub found :
        c.get_secret (record { namespace = mcp.meta.namespace; name = Admin.client_secret mcp }) w
        ≡ ok admin_client
    pub has_ca : is_empty (entry "ca.crt" admin_client.contents) ≡ false
    pub has_crt : is_empty (entry "tls.crt" admin_client.contents) ≡ false
    pub has_key : is_empty (entry "tls.key" admin_client.contents) ≡ false
    pub bytes : Bytes
    pub written : m.write_kubeconfig (admin_kubeconfig mcp admin_client) ≡ ok bytes
    pub stored : (applied bytes w).0 ≡ none
    pub referred :
        Stored m c mcp
          (λ status. record status { admin_kubeconfig_secret_ref = Admin.kubeconfig_secret mcp })
          w'

  on_error-done :
      (r : Option Error × W) (reply : Error → Reply) (rest : W → Reply × W)
      → ((e : Error) → reply e ≢ (done, none))
      → (on_error r reply rest).0 ≡ (done, none)
      → (r.0 ≡ none) × (on_error r reply rest ≡ rest r.1)
  on_error-done (none, w) reply rest never h = (refl, refl)
  on_error-done (some e, w) reply rest never h = absurd (never e h)

  -- The last step: the reply is empty only if the effect returned no error.
  finished :
      (r : Option Error × W) {reply : Error → Reply}
      → ((e : Error) → reply e ≢ (done, none))
      → (on_error r reply (λ w. ((done, none), w))).0 ≡ (done, none)
      → r ≡ (none, (on_error r reply (λ w. ((done, none), w))).1)
  finished (none, w) never h = refl
  finished (some e, w) never h = absurd (never e h)

  record_step : W → Reply × W
  record_step w =
      on_error (update_mcp_admin_secret_ref m c mcp (Admin.kubeconfig_secret mcp) w)
        (λ e. (done, some e)) (λ w'. ((done, none), w'))

  publish_lem :
      (bytes : Bytes) (w : W)
      → publish m c render has_scheme mcp bytes w
        ≡ on_error (applied bytes w) (λ e. (requeue_later, some e)) record_step
  unfolding publish record_step
  publish_lem bytes w = refl

  publish-done :
      (bytes : Bytes) (w : W) (r : Reply × W)
      → publish m c render has_scheme mcp bytes w ≡ r
      → r.0 ≡ (done, none)
      → ((applied bytes w).0 ≡ none)
        × (update_mcp_admin_secret_ref m c mcp (Admin.kubeconfig_secret mcp) (applied bytes w).1
            ≡ (none, r.1))
  unfolding record_step
  publish-done bytes w r e h =
      let whole = sym (publish_lem bytes w) ∙ e in
      let (stored, rest) =
        on_error-done (applied bytes w) _ record_step (λ x. later≢done)
          (ap (λ (q : Reply × W). q.0) whole ∙ h) in
      let last : record_step (applied bytes w).1 ≡ r = sym rest ∙ whole in
      (
        stored,
        subst
            (λ (q : Reply × W).
              update_mcp_admin_secret_ref m c mcp (Admin.kubeconfig_secret mcp) (applied bytes w).1
              ≡ (none, q.1))
            last (finished _ (λ x p. cc) (ap (λ (q : Reply × W). q.0) last ∙ h)),
      )

  -- The branches of `with_admin_client`.
  complete_client :
      (s : Secret) (w : W) (r : Reply × W)
      → with_admin_client m c render has_scheme mcp s w ≡ r
      → r.0 ≡ (done, none)
      → (is_empty (entry "ca.crt" s.contents) ≡ false)
        × (is_empty (entry "tls.crt" s.contents) ≡ false)
        × (is_empty (entry "tls.key" s.contents) ≡ false)
  unfolding with_admin_client
  complete_client s w r e h = ground arith

  written_client :
      (s : Secret) (w : W) (r : Reply × W)
      → with_admin_client m c render has_scheme mcp s w ≡ r
      → r.0 ≡ (done, none)
      → (bytes : Bytes) × (m.write_kubeconfig (admin_kubeconfig mcp s) ≡ ok bytes)
        × (publish m c render has_scheme mcp bytes w ≡ r)
  unfolding with_admin_client
  written_client s w r e h = ground arith

  found_client :
      (w : W) (r : Reply × W)
      → reconcile_admin_config m c render has_scheme mcp w ≡ r
      → r.0 ≡ (done, none)
      → (mcp.status.address ≢ "")
        × ((s : Secret) × (c.get_secret
                (record { namespace = mcp.meta.namespace; name = Admin.client_secret mcp })
                w
              ≡ ok s)
            × (with_admin_client m c render has_scheme mcp s w ≡ r))
  unfolding reconcile_admin_config
  found_client w r e h = (λ p. ground (arith, eq_iff mcp.status.address ""), ground arith)

  -- If the administrator's kubeconfig is reconciled with an empty result and no error, then the object
  -- had an address, the client secret was there with its three parts not empty, the kubeconfig for that
  -- address and those parts was written out, the secret with it was applied without an error, and the
  -- API server took the object as it was read anew with the reference to that secret in its status.
  pub reconcile_admin_config-Published :
      IsRetrying c
      → (w : W) → (reconcile_admin_config m c render has_scheme mcp w).0 ≡ (done, none)
      → Published w (reconcile_admin_config m c render has_scheme mcp w).1
  reconcile_admin_config-Published retries w h =
      let r = reconcile_admin_config m c render has_scheme mcp w in
      let (known, client) = found_client w r refl h in
      let (s, found, e) = client in
      let (ca, crt, key) = complete_client s w r e h in
      let (bytes, written, e') = written_client s w r e h in
      let (stored, referred) = publish-done bytes w r e' h in
      record {
        address_known = known;
        admin_client = s;
        found = found;
        has_ca = ca;
        has_crt = crt;
        has_key = key;
        bytes = bytes;
        written = written;
        stored = stored;
        referred = admin_secret_ref-Stored m c mcp retries _ (applied bytes w).1 r.1 referred;
      }
