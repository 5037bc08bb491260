-- ===== src/Pki/FirstService.antt =====
-- The address of the kubernetes service: the first one of the service network.
use controlplane_operator.Base.{
  ℕ, ◌+◌, ◌*◌, ◌^◌, ◌<◌, String, ◌≡◌, refl, ap, sym, ◌∙◌, Option, some, List, [], ◌∷◌, ◌++◌, length,
  arith,
}
use controlplane_operator.Net.{
  Ip, IpNet, Net, be_value, be_value_from, dotted, ip_string, to4, to16, unmap,
}
use controlplane_operator.Pki.Addresses.{add_bytes, add_ip, first_service_ip}
use controlplane_operator.Pki.Carry.{add_bytes-Carries, le_value, add_bytes_zero}

record Four (xs : List ℕ) : Type 0 where
  p : ℕ
  q : ℕ
  r : ℕ
  s : ℕ
  shape : xs ≡ p ∷ q ∷ r ∷ s ∷ []

length-Four : (xs : List ℕ) → length xs ≡ 4 → Four xs
length-Four [] e = let no : ⊥ = omega arith in elim no [ ]
length-Four (p ∷ []) e = let no : ⊥ = omega arith in elim no [ ]
length-Four (p ∷ q ∷ []) e = let no : ⊥ = omega arith in elim no [ ]
length-Four (p ∷ q ∷ r ∷ []) e = let no : ⊥ = omega arith in elim no [ ]
length-Four (p ∷ q ∷ r ∷ s ∷ []) e = record { p = p; q = q; r = r; s = s; shape = refl }
length-Four (p ∷ q ∷ r ∷ s ∷ t ∷ xs) e = let no : ⊥ = omega arith in elim no [ ]

-- The bytes of an IPv4 address, and the number that they spell.
abbrev v4 : ℕ → ℕ → ℕ → ℕ → Ip
v4 a b c d = a ∷ b ∷ c ∷ d ∷ []

abbrev mapped : List ℕ
mapped = 255 ∷ 255 ∷ 0 ∷ 0 ∷ 0 ∷ 0 ∷ 0 ∷ 0 ∷ 0 ∷ 0 ∷ 0 ∷ 0 ∷ []

-- The address after one that is not the last: four bytes that spell the next number.
record Next (ip : Ip) (after : Option Ip) : Type 0 where
  next_ip : Ip
  found : after ≡ some next_ip
  long : length next_ip ≡ 4
  counts : be_value next_ip ≡ be_value ip + 1

-- The loop has written p, q, r and s and carried the rest.
written-Next :
    (a b c d p q r s carry : ℕ)
    → add_bytes (d ∷ c ∷ b ∷ a ∷ mapped) 1 ≡ p ∷ q ∷ r ∷ s ∷ add_bytes mapped carry
    → d + 256 * (c + 256 * (b + 256 * a)) + 1 ≡ p + 256 * (q + 256 * (r + 256 * s)) + 2 ^ 32 * carry
    → be_value (v4 a b c d) + 1 < 2 ^ 32
    → Next (v4 a b c d) (add_ip (v4 a b c d) 1)
unfolding add_ip to4 to16 unmap be_value be_value_from
written-Next a b c d p q r s carry goes_on adds bound =
    let none_left : carry ≡ 0 = omega arith in
    let sum : add_bytes (d ∷ c ∷ b ∷ a ∷ mapped) 1 ≡ p ∷ q ∷ r ∷ s ∷ mapped =
      goes_on ∙ rw none_left (ap (λ x. p ∷ q ∷ r ∷ s ∷ x) (add_bytes_zero mapped)) in
    record { next_ip = v4 s r q p; found = rw sum refl; long = refl; counts = omega arith }

add_ip-Next :
    (a b c d : ℕ) → be_value (v4 a b c d) + 1 < 2 ^ 32 → Next (v4 a b c d) (add_ip (v4 a b c d) 1)
add_ip-Next a b c d bound =
    let carries = add_bytes-Carries (d ∷ c ∷ b ∷ a ∷ []) 1 in
    let f = length-Four carries.out carries.long in
    written-Next a b c d f.p f.q f.r f.s carries.carry
      (carries.goes_on mapped ∙ ap (λ x. x ++ add_bytes mapped carries.carry) f.shape)
      (omega (arith, carries.adds, ap le_value f.shape)) bound

first_service_ip_of :
    (net : Net) (cidr : String) (ip : Ip) (n : IpNet) (x : Ip)
    → net.parse_cidr cidr ≡ some (ip, n)
    → add_ip n.ip 1 ≡ some x
    → length x ≡ 4
    → first_service_ip net cidr ≡ some (dotted x)
unfolding first_service_ip ip_string to4
first_service_ip_of net cidr ip n x parsed e long =
    rw (first_service_ip, parsed) (rw e (rw (ip_string, to4, long) refl))

-- The first service address of an IPv4 network whose address is not the last one of all: the text of
-- the four bytes that spell the next number.
pub first_service_ip_next :
    (net : Net) (cidr : String) (ip : Ip) (n : IpNet) (a b c d : ℕ)
    → net.parse_cidr cidr ≡ some (ip, n)
    → n.ip ≡ a ∷ b ∷ c ∷ d ∷ []
    → be_value n.ip + 1 < 2 ^ 32
    → (x : Ip) × (first_service_ip net cidr ≡ some (dotted x))
      × (length x ≡ 4)
      × (be_value x ≡ be_value n.ip + 1)
first_service_ip_next net cidr ip n a b c d parsed v4_net bound =
    let below : be_value (v4 a b c d) + 1 < 2 ^ 32 = rw v4_net at bound in
    let next = add_ip-Next a b c d below in
    let found : add_ip n.ip 1 ≡ some next.next_ip = ap (λ i. add_ip i 1) v4_net ∙ next.found in
    (
      next.next_ip,
      first_service_ip_of net cidr ip n next.next_ip parsed found next.long,
      next.long,
      next.counts ∙ ap (λ i. be_value i + 1) (sym v4_net),
    )
