-- ===== src/Pki/Carry.antt =====
-- The addition to an address, byte by byte, is the addition of numbers.
use controlplane_operator.Base.{
  ℕ, zero, suc, ◌+◌, ◌*◌, ◌/◌, ◌%◌, ◌≡◌, refl, ap, sym, ◌∙◌, List, [], ◌∷◌, ◌++◌, length, ◌<◌, All,
  arith,
}
use native.Mathlib.Nat.{mul_assoc}
use controlplane_operator.Pki.Addresses.{add_bytes}

-- The number that bytes spell, the least significant first.
abbrev pub le_value : List ℕ → ℕ
le_value [] = 0
le_value (b ∷ bs) = b + 256 * le_value bs

abbrev pub weight : List ℕ → ℕ
weight [] = 1
weight (b ∷ bs) = 256 * weight bs

add_bytes_step :
    (b : ℕ) (bs : List ℕ) (k : ℕ)
    → add_bytes (b ∷ bs) (suc k)
      ≡ ((b + suc k % 256) % 256) ∷ add_bytes bs (suc k / 256 + (b + suc k % 256) / 256)
unfolding add_bytes
add_bytes_step b bs k = ground arith

below : (n : ℕ) → n % 256 < 256
below n = omega arith

-- What the loop does to the low bytes: it writes bytes that spell the sum, and carries the rest.
pub record Carries (low : List ℕ) (k : ℕ) : Type 0 where
  pub out : List ℕ
  pub carry : ℕ
  pub goes_on : (high : List ℕ) → add_bytes (low ++ high) k ≡ out ++ add_bytes high carry
  pub adds : le_value low + k ≡ le_value out + weight low * carry
  pub long : length out ≡ length low
  pub bytes : All (λ b. b < 256) low → All (λ b. b < 256) out

pub add_bytes_zero : (bs : List ℕ) → add_bytes bs 0 ≡ bs
unfolding add_bytes
add_bytes_zero [] = refl
add_bytes_zero (b ∷ bs) = refl

-- On any low bytes the loop writes as many numbers, which with the weighted carry that it takes into the
-- bytes above spell the sum of the number and the addend; and what it writes over bytes below 256 is
-- below 256 again.
pub add_bytes-Carries : (low : List ℕ) (k : ℕ) → Carries low k
unfolding add_bytes
add_bytes-Carries [] k = record {
  out = [];
  carry = k;
  goes_on = λ high. refl;
  adds = omega arith;
  long = refl;
  bytes = λ h. h;
}
add_bytes-Carries (b ∷ low) zero = record {
  out = b ∷ low;
  carry = 0;
  goes_on = λ high. ap (λ x. b ∷ low ++ x) (sym (add_bytes_zero high));
  adds = omega arith;
  long = refl;
  bytes = λ h. h;
}
add_bytes-Carries (b ∷ low) (suc k) =
    let rest = add_bytes-Carries low (suc k / 256 + (b + suc k % 256) / 256) in
    record {
      out = (b + suc k % 256) % 256 ∷ rest.out;
      carry = rest.carry;
      goes_on = λ high.
          add_bytes_step b (low ++ high) k
          ∙ ap (λ x. (b + suc k % 256) % 256 ∷ x) (rest.goes_on high);
      adds = omega (arith, rest.adds, mul_assoc 256 (weight low) rest.carry);
      long = ap suc rest.long;
      bytes = λ h. (below (b + suc k % 256), rest.bytes h.1);
    }
