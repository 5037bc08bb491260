-- ===== src/Tests/CliTests.antt =====
-- cmd/tesseractl at a concrete input: a managed cluster with the join resources of the sample.
mod Sorting
use mathlib.Core.List.{Memᴰ}
use mathlib.Core.List.Memᴰ.{head, tail}
use Prim.Native.String.{◌++◌}
use controlplane_operator.Base.{
  ℕ, String, ◌≡◌, ◌≢◌, refl, ap, sym, ◌∙◌, Result, Bool-cases, true, false, none, some, List, [],
  ◌∷◌, Error, other, not_found, ok, err, inl, inr, str_eq, eq_iff, lookup, insert, if◌then◌else◌,
  arith, length, nat_eq,
}
use controlplane_operator.Api.{ManagedControlPlane}
use Prim.Native.String
use controlplane_operator.Controller.AdminConfig.{admin_kubeconfig, kubeconfig_secret}
use controlplane_operator.Utils.Kubeconfig
use controlplane_operator.Utils.Kubeconfig.{Bytes, Config, build_kubeconfig_with_cert_data}
use controlplane_operator.Controller.Kube.{Ingress, Secret}
use controlplane_operator.Controller.Addons.Token.{BootstrapToken, token_string}
use controlplane_operator.Builders.Meta.{with_name, with_namespace, with_annotations}
use controlplane_operator.AddonResources.Join.Token.{bootstrap_token_secret}
use controlplane_operator.AddonResources.Join.Configs.{Encoders, cluster_info, cluster_info_config}
use controlplane_operator.Tesseractl.Strings.{has_prefix, trim_space, trim_left, trim_right}
use controlplane_operator.Tesseractl.Host.{CliHost, ChildClient, HostClient, StoredSecret}
use controlplane_operator.Tesseractl.Flags.{
  GivenFlags, effective_kubeconfig_flags, new_client, build_config, build_rest_config,
}
use controlplane_operator.Tesseractl.Tokens.{bootstrap_tokens}
use controlplane_operator.Tesseractl.Tokens.Latest.{IsPart, IsStored}
use controlplane_operator.Tesseractl.Commands.{join_line, join_for}
use controlplane_operator.Tesseractl.Commands.Joining.{IsFaithful, Joinable, Hosted, join_for_lem}
use controlplane_operator.Tests.Fixtures.{published}
use controlplane_operator.Tests.AddonResourceTests.{token}
use controlplane_operator.Tests.Codec.{encode, decode, decode-encode}
use controlplane_operator.Tests.CliTests.Sorting.{sort, sort-IsSort}

-- A kubeconfig is written as one letter and the encoded authority of its first cluster.
abbrev authority_of : List (String × Kubeconfig.Cluster) → Bytes
authority_of [] = []
authority_of ((name, cl) ∷ rest) = cl.certificate_authority_data

abbrev enc : Encoders
enc = record {
  write_config = λ cfg. ok (String.◌∷◌ "k" (encode (authority_of cfg.clusters)));
  kubelet_yaml = λ kc. "kind: KubeletConfiguration";
  cluster_yaml = λ c. "kind: ClusterConfiguration";
}

-- The administrator's kubeconfig is two bytes where it has the server of the sample, else one.
abbrev server_of : List (String × Kubeconfig.Cluster) → String
server_of [] = ""
server_of ((name, cl) ∷ rest) = cl.server

abbrev write : Config → Result Bytes
write cfg =
    ok (if str_eq (server_of cfg.clusters) "https://10.0.0.1:6443" then 1 ∷ (2 ∷ []) else 1 ∷ [])

abbrev admin_client : Secret
admin_client = record { name = "a"; namespace = "default"; kind = "Opaque"; contents = [] }

abbrev stored_config : StoredSecret
stored_config = record {
  name = "demo-kubeconfig";
  namespace = "default";
  created = 1;
  contents = ("kubeconfig", 1 ∷ (2 ∷ [])) ∷ [];
}

abbrev referring : ManagedControlPlane
referring =
    let status = published.status in
    record published { status = record status { admin_kubeconfig_secret_ref = "demo-kubeconfig" } }

abbrev k8s : HostClient
k8s = record {
  get_control_plane = λ k. ok (record { mcp = referring; created = 0 });
  list_control_planes = λ ns. ok [];
  get_secret = λ k. if str_eq k.name "demo-kubeconfig" then ok stored_config else err not_found;
}

abbrev bytes : String → Bytes
bytes s = if str_eq s "abcdef" then 1 ∷ [] else 1 ∷ (2 ∷ [])

abbrev store_all : List (String × String) → List (String × Bytes)
store_all [] = []
store_all ((key, value) ∷ rest) = (key, bytes value) ∷ store_all rest

lookup-store_all :
    (key value : String) (l : List (String × String))
    → lookup key l ≡ some value
    → lookup key (store_all l) ≡ some (bytes value)
unfolding lookup
lookup-store_all key value [] e = cc
lookup-store_all key value ((k, v) ∷ rest) e = elim (Bool-cases (str_eq k key)) [
  | inl same ↦
      let found : some v ≡ some value = rw same at e in
      rw same (let same_value : v ≡ value = cc in ap (λ x. some (bytes x)) same_value)
  | inr other_key ↦ rw other_key (lookup-store_all key value rest (rw other_key at e))
]

abbrev kept : StoredSecret
kept = record {
  name = "bootstrap-token-abcdef";
  namespace = "kube-system";
  created = 5;
  contents = store_all (bootstrap_token_secret token).string_data;
}

abbrev older : StoredSecret
older = record {
  name = "bootstrap-token-000000";
  namespace = "kube-system";
  created = 3;
  contents = [];
}

abbrev child : ChildClient
child = record {
  list_secrets = λ ns. ok (kept ∷ (older ∷ []));
  get_config_map = λ ns name. ok (cluster_info enc published (1 ∷ [])).contents;
  get_service = λ ns name. err not_found;
}

abbrev after_letter : String → Result (List String)
after_letter String.[] = err (other "empty")
after_letter (String.◌∷◌ c s) = ok (s ∷ [])

-- Certificates are their numbers; the PEM of the authority is one byte.
abbrev host : CliHost ℕ ℕ
host = record {
  raw_config = λ path ctx. ok (record { current_context = "c"; contexts = [] });
  client_config = λ path ctx. ok (record { host = "https://host" });
  add_client_go_scheme = none;
  add_api_scheme = none;
  new_client = λ cfg. ok k8s;
  rest_config_from_kube_config =
      λ b. ok (record { host = if nat_eq (length b) 2 then "https://10.0.0.1:6443" else "" });
  new_for_config = λ cfg. ok child;
  sort_by_creation = sort;
  text = λ b. if nat_eq (length b) 1 then "abcdef" else "0123456789abcdef";
  unmarshal_authorities = after_letter;
  base64_decode = λ s. ok (decode s);
  parse_certificate = λ b. elim b [ x ∷ (y ∷ rest) ↦ ok 9 | _ ↦ err (other "malformed") ];
  pem_decode = λ b. some (4 ∷ (8 ∷ []));
  marshal_public_key = λ c. ok (c ∷ []);
  sha256_hex = λ b. "00ff";
  parse_url = λ s. if str_eq s "https://10.0.0.1:6443" then ok "10.0.0.1:6443" else err not_found;
  unmarshal = λ b. ok 0;
  marshal = λ y. ok "kind: Config";
}

kept-IsStored : IsStored bytes (bootstrap_token_secret token) kept
unfolding bootstrap_token_secret with_name with_namespace with_annotations
kept-IsStored = record {
  named = refl;
  within = refl;
  merged = λ key value e. lookup-store_all key value (bootstrap_token_secret token).string_data e;
}

bytes-IsPart :
    (part : String)
    → host.text (bytes part) ≡ part
    → trim_space part ≡ part
    → part ≢ ""
    → IsPart host.text bytes part
bytes-IsPart part converts trimmed some_text = record {
  converts = converts;
  trimmed = trimmed;
  some_text = some_text;
}

host-IsFaithful : IsFaithful host enc
host-IsFaithful = record {
  encode64 = encode;
  blank = refl;
  decodes = λ b. ap ok (decode-encode b);
  reads = λ cfg name cl text written one.
      let there : authority_of cfg.clusters ≡ cl.certificate_authority_data = ap authority_of one in
      let same : ok text ≡ ok (String.◌∷◌ "k" (encode cl.certificate_authority_data)) =
        sym written ∙ ap (λ b. ok (String.◌∷◌ "k" (encode b))) there in
      let text_same : text ≡ String.◌∷◌ "k" (encode cl.certificate_authority_data) = cc in
      ap after_letter text_same;
}

child-Joinable : Joinable host sort-IsSort enc host-IsFaithful write published token (1 ∷ []) child
unfolding bootstrap_tokens has_prefix trim_space trim_left trim_right cluster_info_config insert
child-Joinable = record {
  bytes = bytes;
  secs = kept ∷ (older ∷ []);
  kept = kept;
  listed = refl;
  among = head refl;
  stored = kept-IsStored;
  newest = (inl refl, (inr (omega arith), tt));
  id = bytes-IsPart "abcdef" refl refl (λ e. ground (arith, eq_iff "abcdef" ""));
  secret =
      bytes-IsPart "0123456789abcdef" refl refl (λ e. ground (arith, eq_iff "0123456789abcdef" ""));
  info = refl;
  written = "k1.";
  writes = refl;
  some_text = λ e. ground (arith, eq_iff "k1." "");
  some_ca = λ e. cc;
  der = 4 ∷ (8 ∷ []);
  cert = 9;
  not_der = (other "malformed", refl);
  pem = refl;
  parses = refl;
  spki_der = 9 ∷ [];
  marshals = refl;
  no_service = (not_found, refl);
  is_host = refl;
}

abbrev flags : GivenFlags
flags = record { kubeconfig = ""; context = ""; namespace = "default" }

demo-Hosted :
    Hosted host sort-IsSort enc host-IsFaithful write published token (1 ∷ []) flags "demo" child
unfolding effective_kubeconfig_flags new_client build_config build_rest_config admin_kubeconfig
    build_kubeconfig_with_cert_data insert kubeconfig_secret
demo-Hosted = record {
  eff = record { kubeconfig_path = ""; context = "c"; namespace = "default" };
  selected = refl;
  k8s = k8s;
  connected = refl;
  found = record { mcp = referring; created = 0 };
  read = refl;
  sec = stored_config;
  fetched = refl;
  admin_client = admin_client;
  config_bytes = 1 ∷ (2 ∷ []);
  wrote = refl;
  same = refl;
  loads = λ cluster cl e. ap (λ l. ok (record { host = server_of l })) e;
  reaches = λ cfg e. refl;
}

join_for_lem_example :
    (join_for host flags "demo" ≡ ok (join_line "10.0.0.1:6443" (token_string token) "sha256:00ff"))
    × ((cl : Kubeconfig.Cluster) × ((cluster_info_config published (1 ∷ [])).clusters
          ≡ ("", cl) ∷ [])
        × (cl.server ≡ "https://10.0.0.1:6443")
        × (cl.certificate_authority_data ≡ 1 ∷ []))
join_for_lem_example =
    join_for_lem host sort-IsSort enc host-IsFaithful write published token (1 ∷ []) child
      child-Joinable flags "demo" demo-Hosted
