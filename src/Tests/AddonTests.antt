-- ===== src/Tests/AddonTests.antt =====
-- The add-ons controller at concrete inputs: a world that keeps the secrets that are applied.
use controlplane_operator.Base.{
  String, ◌≡◌, refl, Bool, true, ◌&&◌, ◌||◌, none, some, List, [], ◌∷◌, not_found, Result, ok, err,
  str_eq, eq_refl, arith, subst, lookup, if◌then◌else◌,
}
use controlplane_operator.Cluster.Certificates
use controlplane_operator.Cluster.Konnectivity
use controlplane_operator.Cluster.ManagedAddons
use controlplane_operator.Controller.Kube.{Key, Secret, Machinery, Client, Renderer, done}
use controlplane_operator.Controller.Apply.{
  ApplyOptions, apply, apply_opts, apply_each, managed_apply_opts, prepare, set_owner,
}
use controlplane_operator.Controller.AdminConfig.{entry, is_empty}
use controlplane_operator.Controller.Addons.{
  AddonHost, token_secret_of, apply_built, create_token, ensure_bootstrap_token, get_cluster_ca,
  copied, ensure_konnectivity_tls_data, apply_addons, reconcile_addons, apply_join,
  reconcile_kubelet_join_resources, after_addons, after_join, reconcile_managed,
}
use controlplane_operator.Controller.Addons.Token.{
  BootstrapToken, new_bootstrap_token, parse_token, split_dot,
}
use controlplane_operator.Controller.Addons.Watches.{
  changed, on_config_map, on_other, is_managed_addon, managed_addon, loses_mark, is_marked, asks,
  on_config_map_mostly_deaf,
}
use controlplane_operator.Controller.Addons.Idempotence.{
  Converts, Keeps, secret_key, ensure_bootstrap_token_idem,
}
use controlplane_operator.Controller.Addons.Completion.{Finished, reconcile_managed-Finished}
use controlplane_operator.AddonResources.AgentFiles.{Copied, ensured-Copied}
use controlplane_operator.Tests.Fixtures.{sample, machinery_over, machinery_over-IsMachinery}

abbrev Vault : Type 0
Vault = List Secret

abbrev same_name : Key → Secret → Bool
same_name k s = str_eq s.namespace k.namespace && str_eq s.name k.name

abbrev find : Key → Vault → Result Secret
find k [] = err not_found
find k (s ∷ vault) = if same_name k s then ok s else find k vault

abbrev helpers : Machinery Secret
helpers = machinery_over Secret

abbrev vault_client : Client Secret Vault
vault_client = record {
  get_control_plane = λ k w. ok sample;
  get_service = λ k w. err not_found;
  get_secret = find;
  update = λ o w. (none, w);
  patch_status = λ before after w. (none, w);
  update_status = λ o w. (none, w);
  patch = λ obj owner force w. (none, obj ∷ w);
  retry_on_conflict = λ f. f;
}

abbrev plain : Renderer Secret
plain = record {
  endpoint = λ mcp. [];
  pki = λ mcp. [];
  etcd = λ mcp. [];
  apiserver = λ mcp. some [];
  controller_manager = λ mcp. some [];
  scheduler = λ mcp. [];
  secret = λ s. s;
}

-- The conversions are those of the two parts of the one token that is generated.
abbrev host : AddonHost Secret Vault
host = record {
  split_key = λ s. record { namespace = "default"; name = "demo" };
  get_cluster = λ s w. ok vault_client;
  get_managed_addon = λ cl w. none;
  generate_token = λ w. (ok "abcdef.0123456789abcdef", w);
  text = λ b. if is_empty b then "abcdef" else "0123456789abcdef";
  bytes = λ s. if str_eq s "abcdef" then [] else 1 ∷ [];
  addons = λ mcp. some [];
  join = λ mcp tok ca. some [];
}

abbrev token : BootstrapToken
token = record { id = "abcdef"; secret = "0123456789abcdef" }

-- A ConfigMap of the add-ons that loses its annotation is seen, one whose content changes is not.
on_config_map_mostly_deaf_example :
    (on_config_map (changed sample.meta sample.meta) ≡ (
      if is_managed_addon sample.meta || loses_mark (changed sample.meta sample.meta)
      then managed_addon ∷ []
      else []))
    × (asks (on_other (changed sample.meta sample.meta))
        ≡ is_marked (changed sample.meta sample.meta))
on_config_map_mostly_deaf_example = on_config_map_mostly_deaf (changed sample.meta sample.meta)

prepared :
    (opts : ApplyOptions) (s sent : Secret)
    → prepare helpers vault_client opts s ≡ ok sent
    → s ≡ sent
unfolding prepare set_owner
prepared opts s sent e = ground arith

found_first : (s : Secret) (vault : Vault) → find (secret_key s) (s ∷ vault) ≡ ok s
found_first s vault = rw (eq_refl s.namespace, eq_refl s.name) refl

vault-Keeps : Keeps helpers vault_client plain
vault-Keeps = record {
  keeps = λ opts s sent w e done.
      subst (λ x. find (secret_key s) (x ∷ w) ≡ ok s) (prepared opts s sent e) (found_first s w);
}

token_ensured : (ensure_bootstrap_token helpers vault_client plain host true sample []).0 ≡ ok token
unfolding ensure_bootstrap_token apply_built create_token new_bootstrap_token parse_token split_dot
    apply apply_each apply_opts prepare set_owner
token_ensured = refl

token-Converts : Converts helpers vault_client plain host true token
token-Converts = record { id_back = refl; secret_back = refl }

ensure_bootstrap_token_idem_example :
    let w' = (ensure_bootstrap_token helpers vault_client plain host true sample []).1 in
    ensure_bootstrap_token helpers vault_client plain host true sample w' ≡ (ok token, w')
ensure_bootstrap_token_idem_example =
    ensure_bootstrap_token_idem helpers vault_client plain host true vault-Keeps sample [] token
      token-Converts token_ensured

abbrev tls : String → Secret
tls n = record {
  name = n;
  namespace = "default";
  kind = "kubernetes.io/tls";
  contents = ("ca.crt", 1 ∷ []) ∷ [];
}

abbrev stocked : Vault
stocked =
    tls "demo-managed-ca" ∷ tls "demo-konnectivity-agent-tls" ∷ tls "demo-konnectivity-ca" ∷ []

all_done :
    (reconcile_managed helpers vault_client plain host true vault_client sample stocked).0
    ≡ (done, none)
unfolding reconcile_managed after_join reconcile_kubelet_join_resources apply_join
    ensure_bootstrap_token apply_built create_token new_bootstrap_token parse_token split_dot
    get_cluster_ca entry lookup reconcile_addons ensure_konnectivity_tls_data apply_addons apply
    apply_each apply_opts managed_apply_opts prepare set_owner token_secret_of after_addons
    ManagedAddons.bootstrap_token_mgmt_secret_name Certificates.managed_ca
    Konnectivity.agent_tls_secret Certificates.konnectivity_agent_tls Konnectivity.ca_secret
    Certificates.konnectivity_ca
all_done = refl

reconcile_managed-Finished_example :
    Finished helpers vault_client plain host true vault_client sample stocked
      (reconcile_managed helpers vault_client plain host true vault_client sample stocked).1
reconcile_managed-Finished_example =
    reconcile_managed-Finished helpers vault_client plain host true vault_client sample
      (machinery_over-IsMachinery Secret) stocked all_done

abbrev copies : List Secret
copies =
    copied helpers vault_client plain host true "demo-konnectivity-agent-tls"
      (tls "demo-konnectivity-agent-tls")
    ∷ copied helpers vault_client plain host true "demo-konnectivity-ca"
        (tls "demo-konnectivity-ca")
    ∷ []

copies_made :
    ensure_konnectivity_tls_data helpers vault_client plain host true sample stocked
    ≡ (copies, none)
unfolding ensure_konnectivity_tls_data copied Konnectivity.agent_tls_secret
    Certificates.konnectivity_agent_tls Konnectivity.ca_secret Certificates.konnectivity_ca
copies_made = refl

ensured-Copied_example : Copied vault_client plain sample stocked copies
ensured-Copied_example =
    ensured-Copied helpers vault_client plain host true sample stocked copies copies_made (λ e. cc)
