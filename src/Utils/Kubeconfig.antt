-- ===== src/Utils/Kubeconfig.antt =====
-- pkg/utils/kubernetes.go: the kubeconfigs that the operator writes. `Config` holds the fields of
-- clientcmd's api.Config that the code sets; api.NewConfig gives empty maps.
use Prim.Native.String.{◌++◌}
pub mod Resolves
use controlplane_operator.Base.{ℕ, String, List, [], insert}
use controlplane_operator.Utils.Text.{port_string}

abbrev pub Bytes : Type 0
Bytes = List ℕ

pub record Cluster : Type 0 where
  pub server : String
  pub certificate_authority : String
  pub certificate_authority_data : Bytes

pub record AuthInfo : Type 0 where
  pub client_certificate : String
  pub client_certificate_data : Bytes
  pub client_key : String
  pub client_key_data : Bytes

pub record Context : Type 0 where
  pub cluster : String
  pub auth_info : String

pub record Config : Type 0 where
  pub clusters : List (String × Cluster)
  pub auth_infos : List (String × AuthInfo)
  pub contexts : List (String × Context)
  pub current_context : String

abbrev pub new_config : Config
new_config = record { clusters = []; auth_infos = []; contexts = []; current_context = "" }

abbrev pub default_context_name : String
default_context_name = "local"

unfoldable pub build_component_kubeconfig :
    (namespace api_server_service : String) (api_server_port : ℕ)
    (user ca client_cert client_key : String)
    → Config
unfolding insert
build_component_kubeconfig namespace api_server_service api_server_port user ca client_cert
      client_key =
    let server_url =
      "https://"
      ++ api_server_service
      ++ "."
      ++ namespace
      ++ ".svc:"
      ++ port_string api_server_port in
    record {
      clusters =
          insert default_context_name
            (record {
              server = server_url;
              certificate_authority = ca;
              certificate_authority_data = [];
            })
            new_config.clusters;
      auth_infos =
          insert user
            (record {
              client_certificate = client_cert;
              client_certificate_data = [];
              client_key = client_key;
              client_key_data = [];
            })
            new_config.auth_infos;
      contexts =
          insert default_context_name (record { cluster = default_context_name; auth_info = user })
            new_config.contexts;
      current_context = default_context_name;
    }

unfoldable pub build_kubeconfig_with_cert_data :
    (server_url user : String) (ca crt key : Bytes) → Config
unfolding insert
build_kubeconfig_with_cert_data server_url user ca crt key = record {
  clusters =
      insert default_context_name
        (record {
          server = server_url;
          certificate_authority = "";
          certificate_authority_data = ca;
        })
        new_config.clusters;
  auth_infos =
      insert user
        (record {
          client_certificate = "";
          client_certificate_data = crt;
          client_key = "";
          client_key_data = key;
        })
        new_config.auth_infos;
  contexts =
      insert default_context_name (record { cluster = default_context_name; auth_info = user })
        new_config.contexts;
  current_context = default_context_name;
}
