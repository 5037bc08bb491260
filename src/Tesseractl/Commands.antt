-- ===== src/Tesseractl/Commands.antt =====
-- cmd/tesseractl/cli/mcp.go: the commands below `tesseractl mcp`. cobra runs a command's check of its
-- arguments, where it has one, before the command; the flags of a command are given.
pub mod Joining
use Prim.Native.String.{◌++◌}
use controlplane_operator.Base.{
  ℕ, String, Bool, Option, none, some, List, [], ◌∷◌, Error, other, Result, ok, err, str_eq, ltb,
  nat_eq, not, lookup, length, if◌then◌else◌,
}
use controlplane_operator.Utils.Kubeconfig.{Bytes}
use controlplane_operator.Controller.Kube.{Key}
use controlplane_operator.Tesseractl.Host.{
  CliHost, ChildClient, HostClient, Listed, RestConfig, StoredSecret,
}
use controlplane_operator.Tesseractl.Flags.{
  EffectiveFlags, GivenFlags, effective_kubeconfig_flags, new_client,
}
use controlplane_operator.Tesseractl.Tokens.{get_latest_bootstrap_token}
use controlplane_operator.Tesseractl.Discovery.{get_api_endpoint, get_discovery_ca_hash}
use controlplane_operator.Tesseractl.Output.{print_mcp_table, print_object}

abbrev pub admin_config_secret_key : String
admin_config_secret_key = "kubeconfig"

-- What a command ends with: what it printed, an error, or a panic.
pub data Outcome : Type 0 where
  printed : String → Outcome
  failed : Error → Outcome
  panicked : Outcome

abbrev pub outcome_of : Result String → Outcome
outcome_of (ok s) = printed s
outcome_of (err e) = failed e

infixl 5 ◌>>=◌
abbrev pub ◌>>=◌ {ℓ κ} : {A : Type ℓ} {B : Type κ} → Result A → (A → Result B) → Result B
ok a >>= f = f a
err e >>= f = err e

-- sec.Data[key], or the error that it is missing
abbrev pub needed : Option Bytes → Result Bytes
needed none = err (other "secret missing data")
needed (some b) = ok b

unfoldable pub join_line : String → String → String → String
join_line endpoint token ca_hash =
    "kubeadm join "
    ++ (endpoint
        ++ (" --token "
            ++ (token
                ++ (" --discovery-token-ca-cert-hash "
                    ++ (ca_hash ++ " --ignore-preflight-errors=SystemVerification\n")))))

module _ {Cert Yaml : Type 0} (host : CliHost Cert Yaml) where
  -- The secret with the administrator's kubeconfig of a control plane, in the namespace of the flags.
  unfoldable pub admin_secret : HostClient → EffectiveFlags → String → Result StoredSecret
  admin_secret k8s eff name = do
    mcp ← k8s.get_control_plane (record { namespace = eff.namespace; name = name })
    k8s.get_secret
        (record { namespace = eff.namespace; name = mcp.mcp.status.admin_kubeconfig_secret_ref })

  unfoldable pub join_with : ChildClient → RestConfig → Result String
  join_with child child_rest_cfg = do
    token ← get_latest_bootstrap_token host child
    ca_hash ← get_discovery_ca_hash host child
    endpoint ← get_api_endpoint host child child_rest_cfg.host
    ok (join_line endpoint token ca_hash)

  unfoldable pub join_for : GivenFlags → String → Result String
  join_for given name = do
    eff ← effective_kubeconfig_flags host given
    k8s ← new_client host eff.context eff.kubeconfig_path
    sec ← admin_secret k8s eff name
    kcfg_bytes ← needed (lookup admin_config_secret_key sec.contents)
    child_rest_cfg ← host.rest_config_from_kube_config kcfg_bytes
    child ← host.new_for_config child_rest_cfg
    join_with child child_rest_cfg

  -- args[0] is read, whether it is there or not; further arguments are not looked at.
  unfoldable pub join_command : GivenFlags → List String → Outcome
  join_command given [] = panicked
  join_command given (name ∷ rest) = outcome_of (join_for given name)

  unfoldable pub print_kubeconfig_from_secret : StoredSecret → String → Result String
  print_kubeconfig_from_secret sec key = do
    b ← needed (lookup key sec.contents)
    obj ← host.unmarshal b
    host.marshal obj

  unfoldable pub kubeconfig_for : GivenFlags → String → Result String
  kubeconfig_for given name = do
    eff ← effective_kubeconfig_flags host given
    k8s ← new_client host eff.context eff.kubeconfig_path
    sec ← admin_secret k8s eff name
    print_kubeconfig_from_secret sec admin_config_secret_key

  unfoldable pub kubeconfig_args : List String → Option Error
  kubeconfig_args args =
      if ltb (length args) 1
      then some (other "missing ManagedControlPlane name")
      else if ltb 1 (length args)
      then some (other "too many arguments")
      else none

  unfoldable pub kubeconfig_run : GivenFlags → List String → Outcome
  kubeconfig_run given (name ∷ []) = outcome_of (kubeconfig_for given name)
  kubeconfig_run given _ = failed (other "expected cluster name as positional argument")

  unfoldable pub kubeconfig_command : GivenFlags → List String → Outcome
  kubeconfig_command given args = elim (kubeconfig_args args) [
    | some e ↦ failed e
    | none ↦ kubeconfig_run given args
  ]

  -- The writers of the API's objects as YAML and JSON, with their version and kind set.
  module _ (now : ℕ) (yaml json : List Listed → String) (yaml_one json_one : Listed → String) where
    unfoldable pub print_one : String → Listed → Result String
    print_one out_fmt obj =
        if str_eq out_fmt ""
        then ok (print_mcp_table now (obj ∷ []))
        else print_object yaml_one json_one obj out_fmt

    unfoldable pub print_list : String → List Listed → Result String
    print_list out_fmt items =
        if str_eq out_fmt ""
        then ok (print_mcp_table now items)
        else print_object yaml json items out_fmt

    unfoldable pub get_one : GivenFlags → String → String → Result String
    get_one given out_fmt name = do
      eff ← effective_kubeconfig_flags host given
      k8s ← new_client host eff.context eff.kubeconfig_path
      obj ← k8s.get_control_plane (record { namespace = eff.namespace; name = name })
      print_one out_fmt obj

    unfoldable pub get_all : GivenFlags → String → Result String
    get_all given out_fmt = do
      eff ← effective_kubeconfig_flags host given
      k8s ← new_client host eff.context eff.kubeconfig_path
      items ← k8s.list_control_planes eff.namespace
      print_list out_fmt items

    -- cobra.RangeArgs(0, 1)
    unfoldable pub get_command : GivenFlags → String → List String → Outcome
    get_command given out_fmt [] = outcome_of (get_all given out_fmt)
    get_command given out_fmt (name ∷ []) = outcome_of (get_one given out_fmt name)
    get_command given out_fmt _ = failed (other "accepts between 0 and 1 arg(s)")
