-- ===== src/Tests/UtilsTests.antt =====
-- pkg/utils at concrete inputs.
use controlplane_operator.Base.{
  ◌+◌, ◌-◌, ◌^◌, ◌%◌, ◌<◌, ◌≡◌, refl, some, [], ◌∷◌, arith, ltb, if◌then◌else◌,
}
use controlplane_operator.Net.{Ip, be_value, be_value_from, to4}
use controlplane_operator.Utils.Text.{at, out_of_range, unpack, ip_at_offset}
use controlplane_operator.Utils.Text.Offset.{ip_at_offset_counts}
use controlplane_operator.Tests.PkiTests.{net}

abbrev base : Ip
base = 10 ∷ 96 ∷ 0 ∷ 0 ∷ []

base_small : be_value base < 2 ^ 32
unfolding be_value be_value_from
base_small = omega arith

base_aligned : be_value base % 2 ^ (32 - 12) ≡ 0
unfolding be_value be_value_from
base_aligned = refl

base_v4 : to4 base ≡ some base
unfolding to4
base_v4 = refl

ip_at_offset_counts_example :
    ip_at_offset net "10.96.0.0/12" 10
    ≡ (if ltb 10 (2 ^ (32 - 12)) then at (unpack (be_value base + 10)) else out_of_range)
ip_at_offset_counts_example =
    ip_at_offset_counts net "10.96.0.0/12" base base (record { ip = base; ones = 12 }) 10 96 0 0 10
      refl base_v4 refl base_small (omega arith) base_aligned (omega arith)
