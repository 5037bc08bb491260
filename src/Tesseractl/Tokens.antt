-- ===== src/Tesseractl/Tokens.antt =====
-- cmd/tesseractl/cli/mcp.go, getLatestBootstrapToken. Errors are without the name of the secret.
pub mod Latest
use Prim.Native.String.{◌++◌}
use controlplane_operator.Base.{
  String, Bool, ◌||◌, Option, none, some, List, [], ◌∷◌, other, Result, ok, err, str_eq,
  if◌then◌else◌,
}
use controlplane_operator.Utils.Kubeconfig.{Bytes}
use controlplane_operator.Controller.AdminConfig.{entry}
use controlplane_operator.Tesseractl.Strings.{has_prefix, trim_space}
use controlplane_operator.Tesseractl.Host.{CliHost, ChildClient, StoredSecret}

abbrev pub token_prefix : String
token_prefix = "bootstrap-token-"

unfoldable pub bootstrap_tokens : List StoredSecret → List StoredSecret
bootstrap_tokens [] = []
bootstrap_tokens (s ∷ ss) =
    let rest = bootstrap_tokens ss in if has_prefix s.name token_prefix then s ∷ rest else rest

-- tokens[len(tokens)-1], where there is one
unfoldable pub last : List StoredSecret → Option StoredSecret
last [] = none
last (s ∷ ss) = let later = last ss in elim later [ none ↦ some s | some t ↦ some t ]

module _ {Cert Yaml : Type 0} (host : CliHost Cert Yaml) where
  unfoldable pub token_of : StoredSecret → Result String
  token_of latest =
      let id = trim_space (host.text (entry "token-id" latest.contents)) in
      let sec = trim_space (host.text (entry "token-secret" latest.contents)) in
      if str_eq id "" || str_eq sec ""
      then err (other "bootstrap token secret missing token-id/token-secret")
      else ok (id ++ ("." ++ sec))

  unfoldable pub latest_of : List StoredSecret → Result String
  latest_of [] = err (other "no bootstrap-token-* secrets found in kube-system")
  latest_of (t ∷ tokens) = elim (last (host.sort_by_creation (t ∷ tokens))) [
    | none ↦ err (other "index out of range")
    | some latest ↦ token_of latest
  ]

  unfoldable pub get_latest_bootstrap_token : ChildClient → Result String
  get_latest_bootstrap_token child = elim (child.list_secrets "kube-system") [
    | err e ↦ err e
    | ok secs ↦ latest_of (bootstrap_tokens secs)
  ]
