-- ===== src/Net.antt =====
-- What the operator uses of Go's package net. An address is its list of bytes, 4 or 16 of them, the
-- most significant first; a network is such an address with the number of leading one bits of its
-- mask. The readers of text and the IPv6 spelling are operations of `Net`.
use controlplane_operator.Base.{
  ℕ, zero, suc, ◌+◌, ◌-◌, ◌*◌, ◌/◌, ◌%◌, ◌^◌, ◌<◌, ◌≤◌, String, ◌≡◌, Bool, true, false, ◌&&◌,
  Option, none, some, List, [], ◌∷◌, ◌++◌, nat_eq, length, All, if◌then◌else◌,
}
use controlplane_operator.Net.Decimal.{itoa}
use Prim.Native.String
pub mod Decimal

abbrev pub Ip : Type 0
Ip = List ℕ

pub record IpNet : Type 0 where
  pub ip : Ip
  pub ones : ℕ

pub record Net : Type 0 where
  pub parse_cidr : String → Option (Ip × IpNet)
  pub parse_ip : String → Option Ip
  pub v6_string : Ip → String

-- The number that a list of bytes spells, the most significant byte first.
unfoldable pub be_value_from : ℕ → List ℕ → ℕ
be_value_from acc [] = acc
be_value_from acc (b ∷ bs) = be_value_from (256 * acc + b) bs

unfoldable pub be_value : List ℕ → ℕ
unfolding be_value_from
be_value bs = be_value_from 0 bs

-- The four low bytes behind the prefix ::ffff:0:0/96, if it is there.
unfoldable pub unmap : List ℕ → Option Ip
unmap (a ∷ b ∷ c ∷ d ∷ e ∷ f ∷ g ∷ h ∷ i ∷ j ∷ k ∷ l ∷ low) =
    if nat_eq (a + b + c + d + e + f + g + h + i + j) 0 && nat_eq k 255 && nat_eq l 255
    then some low
    else none
unmap _ = none

-- ip.To4()
unfoldable pub to4 : Ip → Option Ip
unfolding unmap
to4 ip = if nat_eq (length ip) 4 then some ip else if nat_eq (length ip) 16 then unmap ip else none

-- ip.To16()
unfoldable pub to16 : Ip → Option Ip
to16 ip =
    if nat_eq (length ip) 4
    then some (0 ∷ 0 ∷ 0 ∷ 0 ∷ 0 ∷ 0 ∷ 0 ∷ 0 ∷ 0 ∷ 0 ∷ 255 ∷ 255 ∷ ip)
    else if nat_eq (length ip) 16
    then some ip
    else none

abbrev pub or_self : Ip → Option Ip → Ip
or_self ip none = ip
or_self ip (some four) = four

-- n.Contains(ip): the same length, and the same bits under the mask.
unfoldable pub contains : IpNet → Ip → Bool
unfolding to4 be_value
contains n ip =
    let own = or_self n.ip (to4 n.ip) in
    let other = or_self ip (to4 ip) in
    let block = 2 ^ (8 * length own - n.ones) in
    nat_eq (length other) (length own) && nat_eq (be_value other / block) (be_value own / block)

unfoldable pub dotted : List ℕ → String
unfolding itoa
dotted [] = ""
dotted (b ∷ []) = itoa b
dotted (b ∷ bs) = String.◌++◌ (itoa b) (String.◌++◌ "." (dotted bs))

-- ip.String(); the text of a nil address is "<nil>".
unfoldable pub ip_string : Net → Option Ip → String
unfolding to4 dotted
ip_string net none = "<nil>"
ip_string net (some ip) = elim (to4 ip) [ some four ↦ dotted four | none ↦ net.v6_string ip ]
