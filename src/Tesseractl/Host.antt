-- ===== src/Tesseractl/Host.antt =====
-- What the command line tool calls: the clients of both clusters, and the libraries that read
-- kubeconfigs, YAML, certificates and URLs. `IsSort` is what sort.Slice promises.
use mathlib.Core.List.{Permᴰ}
use controlplane_operator.Base.{ℕ, ◌≤◌, String, Option, List, [], ◌∷◌, Error, Result, All}
use controlplane_operator.Api.{ManagedControlPlane}
use controlplane_operator.Utils.Kubeconfig.{Bytes}
use controlplane_operator.Controller.Kube.{Key, Ingress}

-- A secret that the API server has: its time of creation is in nanoseconds.
pub record StoredSecret : Type 0 where
  pub name : String
  pub namespace : String
  pub created : ℕ
  pub contents : List (String × Bytes)

-- The clientcmdapi.Config of the user: of each context its namespace; a nil context is `none`.
pub record RawConfig : Type 0 where
  pub current_context : String
  pub contexts : List (String × Option String)

-- A ManagedControlPlane with its time of creation.
pub record Listed : Type 0 where
  pub mcp : ManagedControlPlane
  pub created : ℕ

-- client.Client of the host cluster
pub record HostClient : Type 0 where
  pub get_control_plane : Key → Result Listed
  pub list_control_planes : String → Result (List Listed)
  pub get_secret : Key → Result StoredSecret

-- kubernetes.Interface of a managed cluster: the data of a ConfigMap, the ingress of a Service.
pub record ChildClient : Type 0 where
  pub list_secrets : String → Result (List StoredSecret)
  pub get_config_map : String → String → Result (List (String × String))
  pub get_service : String → String → Result (List Ingress)

-- rest.Config
pub record RestConfig : Type 0 where
  pub host : String

pub record CliHost (Cert Yaml : Type 0) : Type 0 where
  -- RawConfig of a deferred loading client config, by its explicit path and its overriding context
  pub raw_config : String → String → Result RawConfig
  -- ClientConfig of one
  pub client_config : String → String → Result RestConfig
  -- the two calls of AddToScheme
  pub add_client_go_scheme : Option Error
  pub add_api_scheme : Option Error
  pub new_client : RestConfig → Result HostClient
  pub rest_config_from_kube_config : Bytes → Result RestConfig
  pub new_for_config : RestConfig → Result ChildClient
  pub sort_by_creation : List StoredSecret → List StoredSecret
  pub text : Bytes → String
  -- the certificate-authority-data of each cluster of a kubeconfig
  pub unmarshal_authorities : String → Result (List String)
  pub base64_decode : String → Result Bytes
  pub parse_certificate : Bytes → Result Cert
  -- the bytes of the first PEM block
  pub pem_decode : Bytes → Option Bytes
  pub marshal_public_key : Cert → Result Bytes
  pub sha256_hex : Bytes → String
  -- the host of a URL
  pub parse_url : String → Result String
  pub unmarshal : Bytes → Result Yaml
  pub marshal : Yaml → Result String

-- In ascending order of creation.
abbrev pub Sorted : List StoredSecret → Type 0
Sorted [] = Unit
Sorted (s ∷ ss) = All (λ (t : StoredSecret). s.created ≤ t.created) ss × Sorted ss

-- The same secrets, sorted; which of two of one age is first is not promised.
pub record IsSort (sort : List StoredSecret → List StoredSecret) : Type 0 where
  pub permutes : (ss : List StoredSecret) → Permᴰ ss (sort ss)
  pub sorts : (ss : List StoredSecret) → Sorted (sort ss)
