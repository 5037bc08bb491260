-- ===== src/Net/Decimal.antt =====
-- strconv.Itoa on a number that is not negative.
use Prim.Native.String.{◌++◌}
use controlplane_operator.Base.{ℕ, zero, suc, ◌/◌, ◌%◌, String, nat_eq, ltb, if◌then◌else◌}

abbrev pub digit : ℕ → String
digit d =
    if nat_eq d 0
    then "0"
    else if nat_eq d 1
    then "1"
    else if nat_eq d 2
    then "2"
    else if nat_eq d 3
    then "3"
    else if nat_eq d 4
    then "4"
    else if nat_eq d 5
    then "5"
    else if nat_eq d 6
    then "6"
    else if nat_eq d 7
    then "7"
    else if nat_eq d 8
    then "8"
    else "9"

-- The fuel counts the digits still allowed; n + 1 of them are always enough.
unfoldable pub itoa_from : ℕ → ℕ → String → String
itoa_from zero n acc = acc
itoa_from (suc f) n acc =
    let longer = itoa_from f (n / 10) (digit (n % 10) ++ acc) in
    if ltb n 10 then digit n ++ acc else longer

unfoldable pub itoa : ℕ → String
unfolding itoa_from
itoa n = itoa_from (suc n) n ""
