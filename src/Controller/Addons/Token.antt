-- ===== src/Controller/Addons/Token.antt =====
-- pkg/resources/addons/token.go: the bootstrap token, over the library's generator.
use Prim.Native.Char.{Char, code}
use Prim.Native.String
use text.Mathlib.TextLemmas.{append-nil, append_assoc, nil-append, cons-append}
use text.Mathlib.TextEquality.{Char-path}
use controlplane_operator.Base.{
  arith, String, ◌≡◌, refl, ap, ◌∙◌, sym, inl, inr, Bool-cases, true, List, [], ◌∷◌, other, Result,
  ok, err, nat_eq, if◌then◌else◌,
}

pub record BootstrapToken : Type 0 where
  pub id : String
  pub secret : String

abbrev pub push : String → List String → List String
push c [] = c ∷ []
push c (part ∷ parts) = String.◌++◌ c part ∷ parts

-- strings.Split(s, ".")
unfoldable pub split_dot : String → List String
split_dot String.[] = "" ∷ []
split_dot (String.◌∷◌ c s) =
    let parts = split_dot s in
    if nat_eq (code c) b'.' then "" ∷ parts else push (String.◌∷◌ c String.[]) parts

-- Exactly two parts are a token.
abbrev pub token_of_parts : List String → Result BootstrapToken
token_of_parts (id ∷ (secret ∷ [])) = ok (record { id = id; secret = secret })
token_of_parts _ = err (other "unexpected token format")

unfoldable pub parse_token : String → Result BootstrapToken
parse_token tok = token_of_parts (split_dot tok)

unfoldable pub new_bootstrap_token :
    {W : Type 0} → (W → Result String × W) → W → Result BootstrapToken × W
new_bootstrap_token generate w =
    let (generated, w') = generate w in
    elim generated [ err e ↦ (err e, w') | ok tok ↦ (parse_token tok, w') ]

unfoldable pub token_string : BootstrapToken → String
token_string t = String.◌++◌ t.id (String.◌++◌ "." t.secret)

-- strings.Join(parts, ".")
abbrev join_dot : List String → String
join_dot [] = String.[]
join_dot (part ∷ []) = part
join_dot (part ∷ (next ∷ parts)) = String.◌++◌ part (String.◌++◌ "." (join_dot (next ∷ parts)))

join_dot-push :
    (c : String) (parts : List String) → join_dot (push c parts) ≡ String.◌++◌ c (join_dot parts)
join_dot-push c [] = sym (append-nil c)
join_dot-push c (part ∷ []) = refl
join_dot-push c (part ∷ (next ∷ parts)) =
    append_assoc c part (String.◌++◌ "." (join_dot (next ∷ parts)))

-- There is always a part.
record Parts (parts : List String) : Type 0 where
  first : String
  others : List String
  shape : parts ≡ first ∷ others

split_dot-Parts : (s : String) → Parts (split_dot s)
unfolding split_dot
split_dot-Parts String.[] = record { first = ""; others = []; shape = refl }
split_dot-Parts (String.◌∷◌ c s) = elim (Bool-cases (nat_eq (code c) b'.')) [
  | inl dot ↦ record { first = ""; others = split_dot s; shape = rw dot refl }
  | inr plain ↦
      let p = split_dot-Parts s in
      record {
        first = String.◌++◌ (String.◌∷◌ c String.[]) p.first;
        others = p.others;
        shape = rw (plain, p.shape) refl;
      }
]

dot_char : (c : Char) → nat_eq (code c) b'.' ≡ true → c ≡ "."
dot_char c e = let same : code c ≡ b'.' = ground arith in Char-path c "." same

join_dot-split_dot : (s : String) → join_dot (split_dot s) ≡ s
unfolding split_dot
join_dot-split_dot String.[] = refl
join_dot-split_dot (String.◌∷◌ c s) = elim (Bool-cases (nat_eq (code c) b'.')) [
  | inl dot ↦
      let p = split_dot-Parts s in
      let start : join_dot ("" ∷ split_dot s) ≡ String.◌++◌ "." (join_dot (split_dot s)) =
        rw p.shape (nil-append (String.◌++◌ "." (join_dot (p.first ∷ p.others)))) in
      rw dot (
        start
        ∙ ap (λ x. String.◌++◌ "." x) (join_dot-split_dot s)
        ∙ cons-append "." String.[] s
        ∙ ap (λ x. String.◌∷◌ "." x) (nil-append s)
        ∙ ap (λ x. String.◌∷◌ x s) (sym (dot_char c dot)))
  | inr plain ↦ rw plain (
      join_dot-push (String.◌∷◌ c String.[]) (split_dot s)
      ∙ ap (λ x. String.◌++◌ (String.◌∷◌ c String.[]) x) (join_dot-split_dot s)
      ∙ cons-append c String.[] s
      ∙ ap (λ x. String.◌∷◌ c x) (nil-append s))
]

two_parts :
    (parts : List String) (t : BootstrapToken)
    → token_of_parts parts ≡ ok t
    → token_string t ≡ join_dot parts
unfolding token_string
two_parts [] t e = cc
two_parts (id ∷ []) t e = cc
two_parts (id ∷ (secret ∷ [])) t e =
    let same : record { id = id; secret = secret } ≡ t = cc in
    ap (λ (x : BootstrapToken). String.◌++◌ x.id (String.◌++◌ "." x.secret)) (sym same)
two_parts (id ∷ (secret ∷ (more ∷ parts))) t e = cc

-- The token that is made of a generated text is written back as that text.
pub token_string-new_bootstrap_token :
    {W : Type 0} (generate : W → Result String × W) (w : W) (tok : String) (t : BootstrapToken)
    → (generate w).0 ≡ ok tok
    → (new_bootstrap_token generate w).0 ≡ ok t
    → token_string t ≡ tok
unfolding new_bootstrap_token parse_token
token_string-new_bootstrap_token generate w tok t generated made =
    let parsed : token_of_parts (split_dot tok) ≡ ok t =
      rw (new_bootstrap_token, generated) at made in
    two_parts (split_dot tok) t parsed ∙ join_dot-split_dot tok
