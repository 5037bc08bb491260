-- ===== src/Utils/Text/Offset.antt =====
-- IPAtOffset counts through the addresses of a network, and through no others.
use controlplane_operator.Base.{
  ℕ, zero, suc, ◌+◌, ◌-◌, ◌*◌, ◌/◌, ◌%◌, ◌^◌, ◌≤◌, ◌<◌, String, ◌≡◌, ◌↔◌, refl, ap, ◌∙◌, some, [],
  ◌∷◌, nat_eq, ltb, ltb→lt, ◌≢◌, arith, if◌then◌else◌, Bool-cases, inl, inr,
}
use native.Mathlib.Nat.{
  div-add-mod', mod-lt, le-div_iff_mul-le, div-lt_iff_lt-mul, two-pow-succ, mul-le-mul_right,
  one-le-pow, mod-eq_of_lt,
}
use controlplane_operator.Net.{Ip, IpNet, Net, to4, unmap, contains, be_value, be_value_from}
use controlplane_operator.Utils.Text.{at, out_of_range, pack, unpack, offset_into, ip_at_offset}

-- A number has the quotient of a multiple of the block exactly when it is in the multiple's block.
same_block :
    (block base v : ℕ)
    → 0 < block
    → base % block ≡ 0
    → (v / block ≡ base / block) ↔ ((base ≤ v) × (v < base + block))
same_block block base v pos aligned =
    let whole = div-add-mod' base block in
    let split = div-add-mod' v block in
    (
      λ e.
          let scaled = ap (λ q. q * block) e in
          (
            omega (arith, scaled, whole, split, mod-lt v pos),
            omega (arith, scaled, whole, split, mod-lt v pos),
          ),
      λ h.
          let low : base / block ≤ v / block = (le-div_iff_mul-le pos).1 (omega arith) in
          let high : v / block < base / block + 1 = (div-lt_iff_lt-mul pos).1 (omega arith) in
          omega arith,
    )

spelled :
    (t : ℕ)
    → t < 2 ^ 32
    → be_value (t / 2 ^ 24 % 256 ∷ t / 2 ^ 16 % 256 ∷ t / 2 ^ 8 % 256 ∷ t % 256 ∷ []) ≡ t
unfolding be_value be_value_from
spelled t small = omega arith

abbrev block : IpNet → ℕ
block n = 2 ^ (32 - n.ones)

contains-unpack :
    (n : IpNet) (a b c d t : ℕ)
    → n.ip ≡ a ∷ b ∷ c ∷ d ∷ []
    → t < 2 ^ 32
    → contains n (unpack t) ≡ nat_eq (t / block n) (be_value n.ip / block n)
unfolding contains to4 unmap unpack
contains-unpack n a b c d t e small = rw e (rw (spelled t small) refl)

-- The target of an offset, with the wrap-around of uint32.
abbrev target : ℕ → ℕ → ℕ
target base offset = (base + offset) % 2 ^ 32

pow_split : (m k : ℕ) → 2 ^ k * 2 ^ m ≡ 2 ^ (k + m)
pow_split m zero = let sum : 0 + m ≡ m = omega arith in omega (arith, ap (λ k. 2 ^ k) sum)
pow_split m (suc k) =
    let sum : suc k + m ≡ suc (k + m) = omega arith in
    let twice = ap (λ x. x * 2 ^ m) (two-pow-succ k) in
    omega (arith, twice, ap (λ x. 2 ^ x) sum, two-pow-succ (k + m), pow_split m k)

-- A whole block fits.
block_fits :
    (n : IpNet) (base : ℕ)
    → base < 2 ^ 32
    → n.ones ≤ 32
    → base % block n ≡ 0
    → base + block n ≤ 2 ^ 32
block_fits n base small ones aligned =
    let pos : 0 < block n = one-le-pow (32 - n.ones) 2 (omega arith) in
    let sum : n.ones + (32 - n.ones) ≡ 32 = omega arith in
    let whole : 2 ^ n.ones * block n ≡ 2 ^ 32 =
      pow_split (32 - n.ones) n.ones ∙ ap (λ k. 2 ^ k) sum in
    let quotient : base / block n < 2 ^ n.ones = (div-lt_iff_lt-mul pos).1 (rw whole small) in
    let scaled = mul-le-mul_right (block n) quotient in
    let split = div-add-mod' base (block n) in omega arith

-- Whether the target is in the network is whether the offset is below its size: no offset wraps
-- around into the network.
target_contained :
    (n : IpNet) (base offset : ℕ)
    → base < 2 ^ 32
    → n.ones ≤ 32
    → base % block n ≡ 0
    → offset < 2 ^ 32
    → nat_eq (target base offset / block n) (base / block n) ≡ ltb offset (block n)
target_contained n base offset small ones aligned bound =
    let pos : 0 < block n = one-le-pow (32 - n.ones) 2 (omega arith) in
    let fits = block_fits n base small ones aligned in
    let same = same_block (block n) base (target base offset) pos aligned in
    elim (Bool-cases (ltb offset (block n))) [
      | inl below ↦
          let less = ltb→lt offset (block n) below in
          let kept : target base offset ≡ base + offset = mod-eq_of_lt (omega arith) in
          let equal = same.1 (omega arith, omega arith) in rw below (ground arith)
      | inr above ↦
          let more : block n ≤ offset = ground arith in
          let apart : target base offset / block n ≢ base / block n =
            λ e. let h = same.0 e in omega (arith, h.0, h.1) in
          rw above (ground arith)
    ]

choose :
    (n : IpNet) (base offset : ℕ)
    → base < 2 ^ 32
    → n.ones ≤ 32
    → base % block n ≡ 0
    → offset < 2 ^ 32
    → contains n (unpack (target base offset)) ≡ ltb offset (block n)
    → (if contains n (unpack (target base offset))
        then at (unpack (target base offset))
        else out_of_range)
      ≡ (if ltb offset (block n) then at (unpack (base + offset)) else out_of_range)
choose n base offset small ones aligned bound e = elim (Bool-cases (ltb offset (block n))) [
  | inl below ↦
      let less = ltb→lt offset (block n) below in
      let fits = block_fits n base small ones aligned in
      let kept : target base offset ≡ base + offset = mod-eq_of_lt (omega arith) in
      rw (e, below, kept) refl
  | inr above ↦ rw (e, above) refl
]

four_bytes :
    (n : IpNet) (a b c d : ℕ)
    → n.ip ≡ a ∷ b ∷ c ∷ d ∷ []
    → (to4 n.ip ≡ some (a ∷ b ∷ c ∷ d ∷ []))
      × (a * 2 ^ 24 + b * 2 ^ 16 + c * 2 ^ 8 + d ≡ be_value n.ip)
unfolding to4 be_value be_value_from
four_bytes n a b c d shape = (rw shape refl, rw shape (omega arith))

opened :
    (net : Net) (cidr : String) (ip four : Ip) (n : IpNet) (a b c d offset : ℕ)
    → net.parse_cidr cidr ≡ some (ip, n)
    → to4 ip ≡ some four
    → n.ip ≡ a ∷ b ∷ c ∷ d ∷ []
    → let t = target (be_value n.ip) offset in
      ip_at_offset net cidr offset ≡ (if contains n (unpack t) then at (unpack t) else out_of_range)
unfolding ip_at_offset offset_into pack
opened net cidr ip four n a b c d offset parsed v4 shape =
    let (network, packed) = four_bytes n a b c d shape in
    rw (ip_at_offset, parsed) (rw (offset_into, v4) (rw network (rw packed refl)))

-- The address at an offset of an IPv4 network is the network's first address plus the offset when the
-- offset is below the network's size, and out of range otherwise: an offset never wraps around. That
-- the first address is a multiple of the size is what net.ParseCIDR promises.
pub ip_at_offset_counts :
    (net : Net) (cidr : String) (ip four : Ip) (n : IpNet) (a b c d offset : ℕ)
    → net.parse_cidr cidr ≡ some (ip, n)
    → to4 ip ≡ some four
    → n.ip ≡ a ∷ b ∷ c ∷ d ∷ []
    → be_value n.ip < 2 ^ 32
    → n.ones ≤ 32
    → be_value n.ip % 2 ^ (32 - n.ones) ≡ 0
    → offset < 2 ^ 32
    → ip_at_offset net cidr offset ≡ (
        if ltb offset (2 ^ (32 - n.ones))
        then at (unpack (be_value n.ip + offset))
        else out_of_range)
ip_at_offset_counts net cidr ip four n a b c d offset parsed v4 shape small ones aligned bound =
    let e = target_contained n (be_value n.ip) offset small ones aligned bound in
    let t = target (be_value n.ip) offset in
    let test =
      contains-unpack n a b c d t shape (mod-lt (be_value n.ip + offset) (omega arith)) ∙ e in
    opened net cidr ip four n a b c d offset parsed v4 shape
    ∙ choose n (be_value n.ip) offset small ones aligned bound test
