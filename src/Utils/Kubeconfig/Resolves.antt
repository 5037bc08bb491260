-- ===== src/Utils/Kubeconfig/Resolves.antt =====
-- What a client reads from the kubeconfigs that the operator builds.
use Prim.Native.String.{◌++◌}
use controlplane_operator.Base.{ℕ, String, ◌≡◌, refl, Option, none, some, List, lookup, eq_refl}
use controlplane_operator.Utils.Text.{port_string}
use controlplane_operator.Utils.Kubeconfig.{
  Bytes, Config, Cluster, AuthInfo, build_component_kubeconfig, build_kubeconfig_with_cert_data,
}

-- The cluster and the user of the current context.
abbrev pub current_cluster : Config → Option Cluster
current_cluster cfg = elim (lookup cfg.current_context cfg.contexts) [
  | none ↦ none
  | some ctx ↦ lookup ctx.cluster cfg.clusters
]

abbrev pub current_user : Config → Option AuthInfo
current_user cfg = elim (lookup cfg.current_context cfg.contexts) [
  | none ↦ none
  | some ctx ↦ lookup ctx.auth_info cfg.auth_infos
]

-- The current context of a component's kubeconfig leads to the service URL of the API server with the
-- CA file, and to the user's certificate and key files.
pub build_component_kubeconfig_resolves :
    (namespace service : String) (port : ℕ) (user ca crt key : String)
    → let cfg = build_component_kubeconfig namespace service port user ca crt key in
      (current_cluster cfg
        ≡ some (record {
          server = "https://" ++ service ++ "." ++ namespace ++ ".svc:" ++ port_string port;
          certificate_authority = ca;
          certificate_authority_data = List.[];
        }))
      × (current_user cfg
          ≡ some (record {
            client_certificate = crt;
            client_certificate_data = List.[];
            client_key = key;
            client_key_data = List.[];
          }))
unfolding build_component_kubeconfig lookup
build_component_kubeconfig_resolves namespace service port user ca crt key =
    (refl, rw (eq_refl user))

-- The current context of the administrator's kubeconfig leads to the given server with the embedded CA,
-- and to the embedded certificate and key.
pub build_kubeconfig_with_cert_data_resolves :
    (server_url user : String) (ca crt key : Bytes)
    → let cfg = build_kubeconfig_with_cert_data server_url user ca crt key in
      (current_cluster cfg
        ≡ some (record {
          server = server_url;
          certificate_authority = "";
          certificate_authority_data = ca;
        }))
      × (current_user cfg
          ≡ some (record {
            client_certificate = "";
            client_certificate_data = crt;
            client_key = "";
            client_key_data = key;
          }))
unfolding build_kubeconfig_with_cert_data lookup
build_kubeconfig_with_cert_data_resolves server_url user ca crt key = (refl, rw (eq_refl user))
