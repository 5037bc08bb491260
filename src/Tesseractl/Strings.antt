-- ===== src/Tesseractl/Strings.antt =====
-- What the command line tool uses of Go's package strings, for ASCII texts.
use Prim.Native.Char.{code}
use controlplane_operator.Base.{
  ℕ, String, Bool, true, false, ◌&&◌, ◌||◌, nat_eq, str_eq, is_some, if◌then◌else◌,
}
use controlplane_operator.Utils.Text.{index_byte}

abbrev is_space : ℕ → Bool
is_space c =
    nat_eq c 32 || (nat_eq c 9 || (nat_eq c 10 || (nat_eq c 11 || (nat_eq c 12 || nat_eq c 13))))

unfoldable pub trim_left : String → String
trim_left String.[] = String.[]
trim_left (String.◌∷◌ c s) =
    let rest = trim_left s in if is_space (code c) then rest else String.◌∷◌ c s

unfoldable pub trim_right : String → String
trim_right String.[] = String.[]
trim_right (String.◌∷◌ c s) =
    let rest = trim_right s in
    if str_eq rest "" && is_space (code c) then String.[] else String.◌∷◌ c rest

-- strings.TrimSpace
unfoldable pub trim_space : String → String
unfolding trim_left trim_right
trim_space s = trim_right (trim_left s)

-- strings.HasPrefix(s, prefix)
unfoldable pub has_prefix : String → String → Bool
has_prefix s String.[] = true
has_prefix String.[] (String.◌∷◌ p prefix) = false
has_prefix (String.◌∷◌ c s) (String.◌∷◌ p prefix) =
    let rest = has_prefix s prefix in if nat_eq (code c) (code p) then rest else false

-- strings.Contains(s, ":")
unfoldable pub has_colon : String → Bool
unfolding index_byte
has_colon s = is_some (index_byte s b':')
