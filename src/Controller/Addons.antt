-- ===== src/Controller/Addons.antt =====
-- pkg/controller/addon.go and addon_controller.go: the add-ons of an engaged cluster. The world holds
-- the host cluster and the managed clusters; a managed cluster is reached by a client of its own.
pub mod Token
pub mod Watches
pub mod Idempotence
pub mod Completion
use controlplane_operator.Base.{
  String, Bool, Option, none, some, List, [], ◌∷◌, Error, other, Result, ok, err, not,
  if◌then◌else◌,
}
use controlplane_operator.Api.{ManagedControlPlane}
use controlplane_operator.Utils.Kubeconfig.{Bytes}
use controlplane_operator.Cluster.Certificates
use controlplane_operator.Cluster.Konnectivity
use controlplane_operator.Cluster.ManagedAddons
use controlplane_operator.Controller.Kube.{
  Key, Secret, Reply, Machinery, Client, Renderer, done, requeue_later,
}
use controlplane_operator.Controller.Apply.{apply, apply_opts, managed_apply_opts}
use controlplane_operator.Controller.Endpoint.{on_error}
use controlplane_operator.Controller.AdminConfig.{entry, is_empty}
use controlplane_operator.Controller.Addons.Token.{BootstrapToken, new_bootstrap_token}

-- What the reconciler calls besides the host cluster: the multi-cluster manager, the token library, Go's
-- conversions between texts and bytes, and the builders of pkg/resources/addons, which give none where they panic.
pub record AddonHost (Obj W : Type 0) : Type 0 where
  pub split_key : String → Key
  pub get_cluster : String → W → Result (Client Obj W)
  pub get_managed_addon : Client Obj W → W → Option Error
  pub generate_token : W → Result String × W
  pub text : Bytes → String
  pub bytes : String → Bytes
  pub addons : ManagedControlPlane → Option (List Obj)
  pub join : ManagedControlPlane → BootstrapToken → Bytes → Option (List Obj)

abbrev pub token_id_key : String
token_id_key = "token-id"

abbrev pub token_secret_key : String
token_secret_key = "token-secret"

module _ {Obj W : Type 0} (m : Machinery Obj) (c : Client Obj W) (render : Renderer Obj)
    (a : AddonHost Obj W) (has_scheme : Bool) where
  abbrev pub token_key : ManagedControlPlane → Key
  token_key mcp = record {
    namespace = mcp.meta.namespace;
    name = ManagedAddons.bootstrap_token_mgmt_secret_name mcp;
  }

  unfoldable pub read_token : Secret → BootstrapToken
  read_token sec = record {
    id = a.text (entry token_id_key sec.contents);
    secret = a.text (entry token_secret_key sec.contents);
  }

  unfoldable pub token_secret_of : ManagedControlPlane → BootstrapToken → Secret
  token_secret_of mcp tok = record {
    name = ManagedAddons.bootstrap_token_mgmt_secret_name mcp;
    namespace = mcp.meta.namespace;
    kind = "Opaque";
    contents = (token_id_key, a.bytes tok.id) ∷ (token_secret_key, a.bytes tok.secret) ∷ [];
  }

  -- A token is made, and kept in a secret of the host cluster.
  unfoldable pub create_token : ManagedControlPlane → W → Result BootstrapToken × W
  create_token mcp w =
      let (made, w') = new_bootstrap_token a.generate_token w in
      elim made [
        | err e ↦ (err e, w')
        | ok tok ↦
            let (e, w'') =
              apply m c has_scheme (apply_opts mcp) (render.secret (token_secret_of mcp tok) ∷ [])
                w' in
            elim e [ none ↦ (ok tok, w'') | some x ↦ (err x, w'') ]
      ]

  unfoldable pub ensure_bootstrap_token : ManagedControlPlane → W → Result BootstrapToken × W
  ensure_bootstrap_token mcp w = elim (c.get_secret (token_key mcp) w) [
    | ok sec ↦ (ok (read_token sec), w)
    | err e ↦ if not (m.is_not_found e) then (err e, w) else create_token mcp w
  ]

  -- The bytes are nil when there is an error, and where the authority is not ready yet.
  unfoldable pub get_cluster_ca : ManagedControlPlane → W → Bytes × Option Error
  get_cluster_ca mcp w =
      elim (c.get_secret
        (record { namespace = mcp.meta.namespace; name = Certificates.managed_ca mcp }) w) [
          | err e ↦ ([], m.ignore_not_found e)
          | ok sec ↦ (entry "ca.crt" sec.contents, none)
        ]

  -- A secret of the host cluster as it is copied into the managed cluster.
  unfoldable pub copied : String → Secret → Secret
  copied name sec = record {
    name = name;
    namespace = ManagedAddons.konnectivity_agent_namespace;
    kind = sec.kind;
    contents = sec.contents;
  }

  unfoldable pub ensure_konnectivity_tls_data : ManagedControlPlane → W → List Obj × Option Error
  ensure_konnectivity_tls_data mcp w =
      let ns = mcp.meta.namespace in
      let agent_tls_name = Konnectivity.agent_tls_secret mcp in
      let ca_name = Konnectivity.ca_secret mcp in
      elim (c.get_secret (record { namespace = ns; name = agent_tls_name }) w) [
        | err e ↦ ([], m.ignore_not_found e)
        | ok agent_tls ↦ elim (c.get_secret (record { namespace = ns; name = ca_name }) w) [
          | err e ↦ ([], m.ignore_not_found e)
          | ok ca_sec ↦ (
            render.secret (copied agent_tls_name agent_tls)
                ∷ render.secret (copied ca_name ca_sec)
                ∷ [],
            none,
          )
        ]
      ]

  module _ (cl : Client Obj W) where
    abbrev pub apply_managed : List Obj → W → Option Error × W
    apply_managed = apply m cl has_scheme managed_apply_opts

    -- The same with what a builder gives. Its panic is what controller-runtime makes of it, an error.
    unfoldable pub apply_built : Option (List Obj) → W → Option Error × W
    apply_built none w = (some (other "panic"), w)
    apply_built (some objs) w = apply_managed objs w

    unfoldable pub apply_addons : ManagedControlPlane → List Obj → W → Reply × W
    apply_addons mcp secrets w =
        on_error (apply_managed secrets w) (λ e. (done, some e))
          (λ w'.
            on_error (apply_built (a.addons mcp) w') (λ e. (done, some e))
              (λ w''. ((done, none), w'')))

    unfoldable pub reconcile_addons : ManagedControlPlane → W → Reply × W
    reconcile_addons mcp w =
        let (secrets, e) = ensure_konnectivity_tls_data mcp w in
        elim e [
          | some x ↦ ((requeue_later, some x), w)
          | none ↦ elim secrets [
            | [] ↦ ((requeue_later, none), w)
            | s ∷ ss ↦ apply_addons mcp (s ∷ ss) w
          ]
        ]

    unfoldable pub apply_join : ManagedControlPlane → BootstrapToken → Bytes → W → Reply × W
    apply_join mcp tok ca_pem w =
        if is_empty ca_pem
        then ((requeue_later, none), w)
        else on_error (apply_built (a.join mcp tok ca_pem) w) (λ e. (done, some e))
            (λ w'. ((done, none), w'))

    unfoldable pub reconcile_kubelet_join_resources : ManagedControlPlane → W → Reply × W
    reconcile_kubelet_join_resources mcp w =
        let (ensured, w') = ensure_bootstrap_token mcp w in
        elim ensured [
          | err e ↦ ((done, some e), w')
          | ok tok ↦
              let (ca_pem, e) = get_cluster_ca mcp w' in
              elim e [ some x ↦ ((done, some x), w') | none ↦ apply_join mcp tok ca_pem w' ]
        ]

    -- The end of Reconcile: the error of the add-ons without their result, or that result.
    unfoldable pub after_addons : Reply × W → Reply × W
    after_addons ((res, some e), w) = ((done, some e), w)
    after_addons ((res, none), w) =
        if not (m.is_zero res) then ((res, none), w) else ((done, none), w)

    -- What follows the join resources, whose result is replaced.
    unfoldable pub after_join : ManagedControlPlane → Reply × W → Reply × W
    after_join mcp ((res, some e), w) = ((done, some e), w)
    after_join mcp ((res, none), w) =
        if not (m.is_zero res)
        then ((requeue_later, none), w)
        else after_addons (reconcile_addons mcp w)

    unfoldable pub reconcile_managed : ManagedControlPlane → W → Reply × W
    reconcile_managed mcp w = elim (a.get_managed_addon cl w) [
      | some e ↦ if m.is_not_found e then ((done, none), w) else ((done, some e), w)
      | none ↦ after_join mcp (reconcile_kubelet_join_resources mcp w)
    ]

  unfoldable pub reconcile : String → W → Reply × W
  reconcile cluster_name w = elim (c.get_control_plane (a.split_key cluster_name) w) [
    | err e ↦ if m.is_not_found e then ((done, none), w) else ((done, some e), w)
    | ok mcp ↦ elim (a.get_cluster cluster_name w) [
      | err e ↦ ((done, some e), w)
      | ok cl ↦ reconcile_managed cl mcp w
    ]
  ]
