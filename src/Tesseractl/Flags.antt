-- ===== src/Tesseractl/Flags.antt =====
-- pkg/client/client.go, and of cmd/tesseractl/cli/mcp.go the flags that select a cluster.
use controlplane_operator.Base.{String, none, some, Result, ok, err, str_eq, lookup, if◌then◌else◌}
use controlplane_operator.Tesseractl.Host.{CliHost, HostClient, RawConfig, RestConfig}

pub record EffectiveFlags : Type 0 where
  pub kubeconfig_path : String
  pub context : String
  pub namespace : String

-- The persistent flags as they were given; one that was not given is empty.
pub record GivenFlags : Type 0 where
  pub kubeconfig : String
  pub context : String
  pub namespace : String

-- The namespace of a context of the kubeconfig, where it has one that is not empty.
unfoldable pub context_namespace : RawConfig → String → String
context_namespace raw_cfg ctx = elim (lookup ctx raw_cfg.contexts) [
  | none ↦ "default"
  | some found ↦ elim found [ none ↦ "default" | some ns ↦ if str_eq ns "" then "default" else ns ]
]

module _ {Cert Yaml : Type 0} (host : CliHost Cert Yaml) where
  -- An empty explicit path or context is one that is not set.
  unfoldable pub effective_kubeconfig_flags : GivenFlags → Result EffectiveFlags
  effective_kubeconfig_flags given = elim (host.raw_config given.kubeconfig given.context) [
    | err e ↦ err e
    | ok raw_cfg ↦
        let ctx = if str_eq given.context "" then raw_cfg.current_context else given.context in
        ok (record {
          kubeconfig_path = given.kubeconfig;
          context = ctx;
          namespace =
              if str_eq given.namespace "" then context_namespace raw_cfg ctx else given.namespace;
        })
  ]

  unfoldable pub build_rest_config : String → String → Result RestConfig
  build_rest_config ctx kubeconfig = host.client_config kubeconfig ctx

  unfoldable pub build_config : String → String → Result HostClient
  build_config ctx kubeconfig = elim (build_rest_config ctx kubeconfig) [
    | err e ↦ err e
    | ok cfg ↦ elim host.add_client_go_scheme [
      | some e ↦ err e
      | none ↦ elim host.add_api_scheme [ some e ↦ err e | none ↦ host.new_client cfg ]
    ]
  ]

  unfoldable pub new_client : String → String → Result HostClient
  new_client ctx kubeconfig = elim (build_config ctx kubeconfig) [
    | err e ↦ err e
    | ok client ↦ ok client
  ]
