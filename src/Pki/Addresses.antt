-- ===== src/Pki/Addresses.antt =====
-- pkg/resources/pki/pki.go, `firstServiceIP` and `addIP`. The bytes are below 256 and a uint has 64
-- bits, which the sums do not reach.
use controlplane_operator.Base.{
  ℕ, ◌+◌, ◌/◌, ◌%◌, String, Option, none, some, List, [], ◌∷◌, ◌++◌, is_some, nat_eq, if◌then◌else◌,
}
use controlplane_operator.Net.{Ip, Net, to4, to16, ip_string}

abbrev pub reverse : List ℕ → List ℕ
reverse [] = []
reverse (b ∷ bs) = reverse bs ++ b ∷ []

-- The loop from the last byte down, on the bytes in that order.
unfoldable pub add_bytes : List ℕ → ℕ → List ℕ
add_bytes [] add = []
add_bytes (b ∷ bs) add =
    let sum = b + add % 256 in
    let rest = add_bytes bs (add / 256 + sum / 256) in
    if nat_eq add 0 then b ∷ bs else (sum % 256) ∷ rest

-- `none` is a nil address.
unfoldable pub add_ip : Ip → ℕ → Option Ip
unfolding to4 to16
add_ip ip add = elim (to16 ip) [
  | none ↦ some ip
  | some out16 ↦
      let out = reverse (add_bytes (reverse out16) add) in
      if is_some (to4 ip) then to4 out else some out
]

-- The address as text, when the CIDR can be read.
unfoldable pub first_service_ip : Net → String → Option String
unfolding add_ip ip_string
first_service_ip net cidr = elim (net.parse_cidr cidr) [
  | none ↦ none
  | some (ip, n) ↦ some (ip_string net (add_ip n.ip 1))
]
