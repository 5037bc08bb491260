-- ===== src/Tesseractl/Tokens/Latest.antt =====
-- The tool prints the token that the join resources were made with.
use Prim.Native.String
use text.Mathlib.TextLemmas.{cons-append}
use mathlib.Core.List.{Memᴰ, Permᴰ}
use mathlib.Core.List.Permᴰ as Perms
use mathlib.Core.List.Memᴰ.{head, tail}
use controlplane_operator.Base.{
  ◌≤◌, ◌<◌, String, ◌≡◌, ◌≢◌, ◌⊎◌, refl, sym, ap, subst, ◌∙◌, inl, inr, true, Bool-cases, some,
  List, [], ◌∷◌, ok, All, arith, eq_iff, lookup, insert,
}
use controlplane_operator.Utils.Kubeconfig.{Bytes}
use controlplane_operator.Builders.Meta.{with_annotations, with_namespace-with_name}
use controlplane_operator.Builders.Secret.{Secret}
use controlplane_operator.Controller.AdminConfig.{entry}
use controlplane_operator.Controller.Addons.Token.{BootstrapToken, token_string}
use controlplane_operator.AddonResources.Join.Token.{
  bootstrap_token_secret, bootstrap_token_secret_name,
}
use controlplane_operator.Tesseractl.Strings.{has_prefix, trim_space}
use controlplane_operator.Tesseractl.Host.{CliHost, ChildClient, StoredSecret, Sorted, IsSort}
use controlplane_operator.Tesseractl.Tokens.{
  bootstrap_tokens, get_latest_bootstrap_token, last, latest_of, token_of, token_prefix,
}

bootstrap_tokens-Mem :
    (s : StoredSecret) (ss : List StoredSecret)
    → has_prefix s.name token_prefix ≡ true
    → Memᴰ s ss
    → Memᴰ s (bootstrap_tokens ss)
unfolding bootstrap_tokens
bootstrap_tokens-Mem s [] p m = elim m [ ]
bootstrap_tokens-Mem s (t ∷ ss) p (head e) =
    rw (ap (λ (x : StoredSecret). has_prefix x.name token_prefix) (sym e) ∙ p) (head e)
bootstrap_tokens-Mem s (t ∷ ss) p (tail m) = elim (Bool-cases (has_prefix t.name token_prefix)) [
  | inl e ↦ rw e (tail (bootstrap_tokens-Mem s ss p m))
  | inr e ↦ rw e (bootstrap_tokens-Mem s ss p m)
]

All-Mem :
    (P : StoredSecret → Type 0) (ss : List StoredSecret) (s : StoredSecret)
    → All P ss
    → Memᴰ s ss
    → P s
All-Mem P [] s h m = elim m [ ]
All-Mem P (t ∷ ss) s h (head e) = subst P (sym e) h.0
All-Mem P (t ∷ ss) s h (tail m) = All-Mem P ss s h.1 m

perm-Mem : {ss ts : List StoredSecret} (s : StoredSecret) → Permᴰ ss ts → Memᴰ s ss → Memᴰ s ts
perm-Mem s Permᴰ.nil m = m
perm-Mem s (Permᴰ.cons e d) (head f) = head (f ∙ e)
perm-Mem s (Permᴰ.cons e d) (tail m) = tail (perm-Mem s d m)
perm-Mem s (Permᴰ.swap e f) (head g) = tail (head (g ∙ e))
perm-Mem s (Permᴰ.swap e f) (tail (head g)) = head (g ∙ f)
perm-Mem s (Permᴰ.swap e f) (tail (tail m)) = tail (tail m)
perm-Mem s (Permᴰ.trans d e) m = perm-Mem s e (perm-Mem s d m)

-- The last of a sorted list is among its elements, and none of them is younger.
record Youngest (ss : List StoredSecret) : Type 0 where
  t : StoredSecret
  found : last ss ≡ some t
  inside : Memᴰ t ss
  above : (s : StoredSecret) → Memᴰ s ss → s.created ≤ t.created

last-Youngest : (s : StoredSecret) (ss : List StoredSecret) → Sorted (s ∷ ss) → Youngest (s ∷ ss)
unfolding last
last-Youngest s [] h = record {
  t = s;
  found = refl;
  inside = head refl;
  above = λ x m. elim m [
    | head e ↦ omega (arith, ap (λ (a : StoredSecret). a.created) e)
    | tail n ↦ elim n [ ]
  ];
}
last-Youngest s (r ∷ ss) h =
    let y = last-Youngest r ss h.1 in
    record {
      t = y.t;
      found = rw (y.found) refl;
      inside = tail y.inside;
      above = λ x m. elim m [
        | head e ↦
            let older : s.created ≤ y.t.created =
              All-Mem (λ (a : StoredSecret). s.created ≤ a.created) (r ∷ ss) y.t h.0 y.inside in
            omega (arith, ap (λ (a : StoredSecret). a.created) e)
        | tail n ↦ y.above x n
      ];
    }

Sorted-Youngest : (s : StoredSecret) (ss : List StoredSecret) → Sorted ss → Memᴰ s ss → Youngest ss
Sorted-Youngest s [] h m = elim m [ ]
Sorted-Youngest s (r ∷ ss) h m = last-Youngest r ss h

-- What the API server keeps of a secret that is created: the texts of stringData are merged into the
-- data, as bytes.
pub record IsStored (bytes : String → Bytes) (sec : Secret) (s : StoredSecret) : Type 0 where
  pub named : s.name ≡ sec.meta.name
  pub within : s.namespace ≡ sec.meta.namespace
  pub merged :
      (key value : String)
      → lookup key sec.string_data ≡ some value
      → lookup key s.contents ≡ some (bytes value)

has_prefix-append : (p s : String) → has_prefix (String.◌++◌ p s) p ≡ true
unfolding has_prefix
has_prefix-append String.[] s = refl
has_prefix-append (String.◌∷◌ c p) s =
    rw (cons-append c p s) (ground (arith, has_prefix-append p s))

bootstrap_token_secret-prefixed :
    (tok : BootstrapToken) → has_prefix (bootstrap_token_secret tok).meta.name token_prefix ≡ true
unfolding bootstrap_token_secret with_annotations has_prefix
bootstrap_token_secret-prefixed tok =
    rw (with_namespace-with_name (bootstrap_token_secret_name tok.id) "kube-system")
      (has_prefix-append token_prefix tok.id)

-- A part of a token that is a text of its own.
pub record IsPart (text : Bytes → String) (bytes : String → Bytes) (part : String) : Type 0 where
  pub converts : text (bytes part) ≡ part
  pub trimmed : trim_space part ≡ part
  pub some_text : part ≢ ""

module _ {Cert Yaml : Type 0} (host : CliHost Cert Yaml)
    (sorts : IsSort host.sort_by_creation) where
  latest-found :
      (s : StoredSecret) (ss : List StoredSecret)
      → Memᴰ s ss
      → All (λ (t : StoredSecret). (t ≡ s) ⊎ (t.created < s.created)) ss
      → latest_of host ss ≡ token_of host s
  unfolding latest_of
  latest-found s [] m newest = elim m [ ]
  latest-found s (t ∷ ss) m newest =
      let sorted = host.sort_by_creation (t ∷ ss) in
      let y =
        Sorted-Youngest s sorted (sorts.sorts (t ∷ ss)) (perm-Mem s (sorts.permutes (t ∷ ss)) m) in
      let known =
        All-Mem (λ (a : StoredSecret). (a ≡ s) ⊎ (a.created < s.created)) (t ∷ ss) y.t newest
          (perm-Mem y.t (Perms.symm (sorts.permutes (t ∷ ss))) y.inside) in
      rw (y.found, latest_of)
        (elim known [
          | inl same ↦ ap (token_of host) same
          | inr older ↦ absurd (omega (arith, y.above s (perm-Mem s (sorts.permutes (t ∷ ss)) m)))
        ])

  -- The token of a stored bootstrap secret.
  token-stored :
      (bytes : String → Bytes) (tok : BootstrapToken) (s : StoredSecret)
      → IsStored bytes (bootstrap_token_secret tok) s
      → IsPart host.text bytes tok.id
      → IsPart host.text bytes tok.secret
      → token_of host s ≡ ok (token_string tok)
  unfolding token_of bootstrap_token_secret insert lookup token_string entry
  token-stored bytes tok s stored id secret =
      let same_id : trim_space (host.text (entry "token-id" s.contents)) ≡ tok.id =
        rw (stored.merged "token-id" tok.id refl, entry) (rw id.converts id.trimmed) in
      let same_secret : trim_space (host.text (entry "token-secret" s.contents)) ≡ tok.secret =
        rw (stored.merged "token-secret" tok.secret refl, entry)
          (rw secret.converts secret.trimmed) in
      ground (
        arith,
        same_id,
        same_secret,
        eq_iff tok.id "",
        eq_iff tok.secret "",
        id.some_text,
        secret.some_text,
      )

  -- The tool prints the token that the join resources were made with, `id.secret`, when the secret of
  -- that token is stored in the managed cluster and every other bootstrap secret there is older. The
  -- sort is any that keeps what sort.Slice promises.
  pub get_latest_bootstrap_token-bootstrap_token_secret :
      (child : ChildClient) (bytes : String → Bytes) (tok : BootstrapToken) (s : StoredSecret)
      (secs : List StoredSecret)
      → child.list_secrets "kube-system" ≡ ok secs
      → Memᴰ s secs
      → IsStored bytes (bootstrap_token_secret tok) s
      → All (λ (t : StoredSecret). (t ≡ s) ⊎ (t.created < s.created)) (bootstrap_tokens secs)
      → IsPart host.text bytes tok.id
      → IsPart host.text bytes tok.secret
      → get_latest_bootstrap_token host child ≡ ok (token_string tok)
  unfolding get_latest_bootstrap_token
  get_latest_bootstrap_token-bootstrap_token_secret child bytes tok s secs listed m stored newest id
        secret =
      rw (listed, get_latest_bootstrap_token)
        (latest-found s (bootstrap_tokens secs)
            (bootstrap_tokens-Mem s secs (rw stored.named (bootstrap_token_secret-prefixed tok)) m)
            newest
          ∙ token-stored bytes tok s stored id secret)
