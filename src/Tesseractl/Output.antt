-- ===== src/Tesseractl/Output.antt =====
-- cmd/tesseractl/cli/output.go: the table of control planes. Times are in nanoseconds; the duration
-- since a creation is an amount of time, or the negative of one. A number of hours is the whole hours,
-- as float64 gives it but within nanoseconds of the next one.
use Prim.Native.String.{◌++◌}
use controlplane_operator.Base.{
  ℕ, zero, suc, ◌-◌, ◌*◌, ◌/◌, String, Option, none, some, List, [], ◌∷◌, other, Result, ok, err,
  ltb, nat_eq, str_eq, if◌then◌else◌,
}
use controlplane_operator.Net.Decimal.{itoa}
use controlplane_operator.Api.{BoolPtr}
use controlplane_operator.Utils.Text.{size}
use controlplane_operator.Tesseractl.Host.{Listed}

abbrev pub second : ℕ
second = 1_000_000_000

abbrev pub minute : ℕ
minute = 60 * second

abbrev pub hour : ℕ
hour = 60 * minute

-- time.Duration
pub data Duration : Type 0 where
  elapsed : ℕ → Duration
  ahead : ℕ → Duration

unfoldable pub sub : ℕ → ℕ → Duration
sub now created = if ltb now created then ahead (created - now) else elapsed (now - created)

unfoldable pub human_duration : Duration → String
human_duration (ahead n) = if nat_eq (n / second) 0 then "0s" else "-" ++ (itoa (n / second) ++ "s")
human_duration (elapsed n) =
    if ltb n minute
    then itoa (n / second) ++ "s"
    else if ltb n hour
    then itoa (n / minute) ++ "m"
    else if ltb n (24 * hour)
    then itoa (n / hour) ++ "h"
    else itoa (n / hour / 24) ++ "d"

-- %-<width>s
unfoldable pub spaces : ℕ → String
spaces zero = ""
spaces (suc n) = " " ++ spaces n

unfoldable pub pad : ℕ → String → String
unfolding spaces size
pad width s = s ++ spaces (width - size s)

unfoldable pub line : String → String → String → String → String → String
line name ready address version age =
    pad 30 name
    ++ (" "
        ++ (pad 7 ready
            ++ (" "
                ++ (pad 16 address ++ (" " ++ (pad 10 version ++ (" " ++ (pad 6 age ++ "\n"))))))))

abbrev pub ready_text : Option BoolPtr → String
ready_text none = ""
ready_text (some p) = if p.value then "True" else "False"

unfoldable pub rows : ℕ → List Listed → String
rows now [] = ""
rows now (m ∷ items) =
    line m.mcp.meta.name (ready_text m.mcp.status.ready) m.mcp.status.address
      m.mcp.spec.kubernetes.version (human_duration (sub now m.created))
    ++ rows now items

unfoldable pub print_mcp_table : ℕ → List Listed → String
print_mcp_table now items = line "NAME" "READY" "ADDRESS" "VERSION" "AGE" ++ rows now items

-- The writers of utils.GetObjYaml and utils.GetObjJSON are given.
unfoldable pub print_object :
    {A : Type 0} → (A → String) → (A → String) → A → String → Result String
print_object yaml json obj out_fmt =
    if str_eq out_fmt ""
    then err (other "table output is only supported for get/list, not generic objects")
    else if str_eq out_fmt "table"
    then err (other "table output is only supported for get/list, not generic objects")
    else if str_eq out_fmt "yaml"
    then ok (yaml obj)
    else if str_eq out_fmt "json"
    then ok (json obj)
    else err (other "unsupported output (use: yaml|json)")
