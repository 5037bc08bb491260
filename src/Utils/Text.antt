-- ===== src/Utils/Text.antt =====
-- pkg/utils/utils.go. A Go string here is ASCII, so bytes are characters: names are DNS
-- labels and versions are digits and dots. Ports are not negative.
pub mod Merge
pub mod Offset
use Prim.Native.Char.{Char, code}
use Prim.Native.String
use controlplane_operator.Base.{
  ℕ, zero, suc, ◌+◌, ◌*◌, ◌/◌, ◌%◌, ◌^◌, String, Bool, true, false, Option, none, some, List, [],
  ◌∷◌, nat_eq, ltb, if◌then◌else◌, lookup, insert,
}
use controlplane_operator.Net.{Ip, IpNet, Net, to4, contains, or_self}
use controlplane_operator.Net.Decimal.{itoa}

abbrev pub max_common_name_length : ℕ
max_common_name_length = 64

-- What IPAtOffset returns: an address, one of its errors, or the panic of an index into a nil slice.
pub data AtOffset : Type 0 where
  at : Ip → AtOffset
  invalid_cidr only_ipv4 out_of_range : AtOffset
  index_panic : AtOffset

-- Four bytes into a uint32; `|` of disjoint bits is `+`.
unfoldable pub pack : List ℕ → Option ℕ
pack (a ∷ b ∷ c ∷ d ∷ _) = some (a * 2 ^ 24 + b * 2 ^ 16 + c * 2 ^ 8 + d)
pack _ = none

-- net.IPv4(byte(target>>24), …), which has the 16-byte form
unfoldable pub unpack : ℕ → Ip
unpack target =
    0
    ∷ 0
    ∷ 0
    ∷ 0
    ∷ 0
    ∷ 0
    ∷ 0
    ∷ 0
    ∷ 0
    ∷ 0
    ∷ 255
    ∷ 255
    ∷ (target / 2 ^ 24 % 256)
    ∷ (target / 2 ^ 16 % 256)
    ∷ (target / 2 ^ 8 % 256)
    ∷ (target % 256)
    ∷ []

-- From the parsed CIDR on.
unfoldable pub offset_into : Ip → IpNet → ℕ → AtOffset
offset_into ip ipnet offset = elim (to4 ip) [
  | none ↦ only_ipv4
  | some _ ↦ elim (to4 ipnet.ip) [
    | none ↦ index_panic
    | some network ↦ elim (pack network) [
      | none ↦ index_panic
      | some base ↦
          let out = unpack ((base + offset) % 2 ^ 32) in
          if contains ipnet out then at out else out_of_range
    ]
  ]
]

unfoldable pub ip_at_offset : Net → String → ℕ → AtOffset
unfolding offset_into
ip_at_offset net cidr offset = elim (net.parse_cidr cidr) [
  | none ↦ invalid_cidr
  | some (ip, ipnet) ↦ offset_into ip ipnet offset
]

-- `for k, v := range src { dst[k] = v }`, in some order of the keys of `src`
unfoldable pub merge_into : List (String × String) → List (String × String) → List (String × String)
merge_into dst [] = dst
merge_into dst ((k, v) ∷ src) = merge_into (insert k v dst) src

-- A nil map is `none`.
unfoldable pub merge_string_map :
    Option (List (String × String))
    → Option (List (String × String))
    → Option (List (String × String))
unfolding merge_into
merge_string_map none none = none
merge_string_map none (some src) = some (merge_into [] src)
merge_string_map (some dst) none = some dst
merge_string_map (some dst) (some src) = some (merge_into dst src)

unfoldable pub port_string : ℕ → String
unfolding itoa
port_string p = itoa p

-- s[:n], the whole of a shorter text
unfoldable pub take : ℕ → String → String
take zero s = String.[]
take (suc n) String.[] = String.[]
take (suc n) (String.◌∷◌ c s) = String.◌∷◌ c (take n s)

-- s[n:]
unfoldable pub drop : ℕ → String → String
drop zero s = s
drop (suc n) String.[] = String.[]
drop (suc n) (String.◌∷◌ c s) = drop n s

-- strings.IndexByte, `none` for -1
unfoldable pub index_byte : String → ℕ → Option ℕ
index_byte String.[] b = none
index_byte (String.◌∷◌ c s) b =
    let later = index_byte s b in
    if nat_eq (code c) b then some 0 else elim later [ none ↦ none | some i ↦ some (suc i) ]

unfoldable pub size : String → ℕ
size String.[] = 0
size (String.◌∷◌ c s) = suc (size s)

unfoldable pub get_major_minor_string : String → String
unfolding size take drop index_byte
get_major_minor_string version =
    let v = drop 1 version in
    if ltb (size version) 2 then "" else elim (index_byte v b'.') [
      | none ↦ ""
      | some first_dot ↦ elim (index_byte (drop (first_dot + 1) v) b'.') [
        | none ↦ ""
        | some second_dot ↦ take (second_dot + (first_dot + 1)) v
      ]
    ]

unfoldable pub truncate_to_max_length : String → String × Bool
unfolding size take
truncate_to_max_length pod_name =
    if ltb max_common_name_length (size pod_name)
    then (take 64 pod_name, true)
    else (pod_name, false)
