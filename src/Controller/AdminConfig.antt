-- ===== src/Controller/AdminConfig.antt =====
-- pkg/controller/config.go: the administrator's kubeconfig secret.
pub mod Published
use Prim.Native.String.{◌++◌}
use controlplane_operator.Base.{
  String, Bool, true, false, ◌||◌, Option, none, some, List, [], ◌∷◌, Error, ok, err, str_eq,
  lookup, if◌then◌else◌,
}
use controlplane_operator.Api.{ManagedControlPlane}
use controlplane_operator.Utils.Kubeconfig.{Bytes, Config, build_kubeconfig_with_cert_data}
use controlplane_operator.Cluster.Admin
use controlplane_operator.Controller.Kube.{
  Secret, Reply, Machinery, Client, Renderer, done, requeue_later,
}
use controlplane_operator.Controller.Apply.{apply, apply_opts}
use controlplane_operator.Controller.Endpoint.{on_error, update_mcp_admin_secret_ref}

-- m[key] on a map of bytes: nil where the key is missing
unfoldable pub entry : String → List (String × Bytes) → Bytes
entry key contents = elim (lookup key contents) [ none ↦ [] | some b ↦ b ]

abbrev pub is_empty : Bytes → Bool
is_empty [] = true
is_empty (_ ∷ _) = false

unfoldable pub admin_kubeconfig : ManagedControlPlane → Secret → Config
admin_kubeconfig mcp admin_client =
    build_kubeconfig_with_cert_data ("https://" ++ mcp.status.address ++ ":6443") "local"
      (entry "ca.crt" admin_client.contents) (entry "tls.crt" admin_client.contents)
      (entry "tls.key" admin_client.contents)

unfoldable pub kubeconfig_secret : ManagedControlPlane → Bytes → Secret
kubeconfig_secret mcp kubeconfig_bytes = record {
  name = Admin.kubeconfig_secret mcp;
  namespace = mcp.meta.namespace;
  kind = "Opaque";
  contents = (Admin.kubeconfig_data_key, kubeconfig_bytes) ∷ [];
}

module _ {Obj W : Type 0} (m : Machinery Obj) (c : Client Obj W) (render : Renderer Obj)
    (has_scheme : Bool) where
  -- From the written kubeconfig on.
  unfoldable pub publish : ManagedControlPlane → Bytes → W → Reply × W
  publish mcp kubeconfig_bytes w =
      on_error
        (apply m c has_scheme (apply_opts mcp)
          (render.secret (kubeconfig_secret mcp kubeconfig_bytes) ∷ []) w)
        (λ e. (requeue_later, some e))
        (λ w'.
          on_error (update_mcp_admin_secret_ref m c mcp (Admin.kubeconfig_secret mcp) w')
            (λ e. (done, some e)) (λ w''. ((done, none), w'')))

  unfoldable pub with_admin_client : ManagedControlPlane → Secret → W → Reply × W
  with_admin_client mcp admin_client w =
      if is_empty (entry "ca.crt" admin_client.contents)
        || is_empty (entry "tls.crt" admin_client.contents)
        || is_empty (entry "tls.key" admin_client.contents)
      then ((requeue_later, none), w)
      else elim (m.write_kubeconfig (admin_kubeconfig mcp admin_client)) [
        | err e ↦ ((requeue_later, some e), w)
        | ok kubeconfig_bytes ↦ publish mcp kubeconfig_bytes w
      ]

  unfoldable pub reconcile_admin_config : ManagedControlPlane → W → Reply × W
  reconcile_admin_config mcp w =
      if str_eq mcp.status.address ""
      then ((requeue_later, none), w)
      else elim (c.get_secret
          (record { namespace = mcp.meta.namespace; name = Admin.client_secret mcp }) w) [
            | err e ↦ ((requeue_later, m.ignore_not_found e), w)
            | ok admin_client ↦ with_admin_client mcp admin_client w
          ]
