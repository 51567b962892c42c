-- ===== src/Pricing.antt =====
-- pkg/providers/pricing/pricing.go. Prices count 1/102400000 euro, in which the coefficients and
-- every modelled price are whole; binary rounding is not modelled.
pub mod Model
pub mod Overrides
pub mod Accepted
use karpenter_provider_stack.Prelude.{
  ℕ, ◌+◌, ◌*◌, Bool, true, false, ◌||◌, Option, none, some, List, [], ◌∷◌, Text, text_eq, Map,
  lookup, insert, length, cut_byte, split_byte, leb, ◌==◌, ◌&&◌, if◌then◌else◌,
}
use karpenter_provider_stack.Prelude.Float.{Float64, finite, pos, lef, zero_float}
use karpenter_provider_stack.Errors.{ClientError, plain, wrapped, Result, ok, err}
use karpenter_provider_stack.Utils.Zone.{trim_left, trim_right}

-- 0.0246 euro, 0.0033 / 1024 euro (a MiB is priced, 1/1024 of a GiB), 0.00007 euro.
abbrev pub eur_per_vcpu_hour : ℕ
eur_per_vcpu_hour = 2519040

abbrev pub eur_per_mib_hour : ℕ
eur_per_mib_hour = 330

abbrev pub eur_per_gib_disk_hour : ℕ
eur_per_gib_disk_hour = 7168

pub record MachineTypeSpec : Type 0 where
  pub name : Text
  pub vcpus : ℕ
  pub ram_mib : ℕ
  pub disk_gib : ℕ

unfoldable pub model_price : MachineTypeSpec → Float64
model_price spec =
    let price = finite (
      pos (
        spec.vcpus * eur_per_vcpu_hour
        + spec.ram_mib * eur_per_mib_hour
        + spec.disk_gib * eur_per_gib_disk_hour)) in
    if lef price zero_float then finite (pos eur_per_vcpu_hour) else price

pub record Provider : Type 0 where
  pub overrides : Map Float64
  pub prices : Map Float64

unfoldable pub new_provider : Map Float64 → Provider
new_provider overrides = record { overrides = overrides; prices = [] }

unfoldable pub price : Provider → Text → Option Float64
price p machine_type = lookup machine_type p.prices

unfoldable pub price_of : Map Float64 → MachineTypeSpec → Float64
price_of overrides spec = elim (lookup spec.name overrides) [
  | some override ↦ override
  | none ↦ model_price spec
]

-- The loop of UpdatePrices, over the specs that are left.
unfoldable pub price_loop : Map Float64 → List MachineTypeSpec → Map Float64 → Map Float64
price_loop overrides [] prices = prices
price_loop overrides (spec ∷ specs) prices =
    price_loop overrides specs (insert spec.name (price_of overrides spec) prices)

-- UpdatePrices, given what the lister returned.
unfoldable pub update_prices :
    Result ClientError (List MachineTypeSpec) → Provider → Result ClientError (Unit {0}) × Provider
update_prices (err e) p = (err (wrapped e), p)
update_prices (ok []) p = (err plain, p)
update_prices (ok (spec ∷ specs)) p =
    (ok tt, record p { prices = price_loop p.overrides (spec ∷ specs) [] })

unfoldable pub reset : Provider → Provider
reset p = record p { prices = [] }

-- strings.TrimSpace, on ASCII text.
unfoldable pub is_space : ℕ → Bool
is_space c = c == b' ' || (leb 9 c && leb c 13)

unfoldable pub trim_space : Text → Text
trim_space s = trim_right is_space (trim_left is_space s)

-- The checks of ParseOverrides on a name, a value and what parsing the value gave. The result has an
-- Option because a blank pair gives no override.
unfoldable pub check_override :
    Text → Text → Option Float64 → Result ClientError (Option (Text × Float64))
check_override name value parsed =
    if text_eq name [] || text_eq value [] then err plain else elim parsed [
      | none ↦ err plain
      | some price ↦ if lef price zero_float then err plain else ok (some (name, price))
    ]

-- What the loop does with the result of one turn: return the error, go on, or add and go on.
abbrev pub add_override :
    Result ClientError (Option (Text × Float64))
    → (Map Float64 → Result ClientError (Map Float64))
    → Map Float64
    → Result ClientError (Map Float64)
add_override (err e) rest overrides = err e
add_override (ok none) rest overrides = rest overrides
add_override (ok (some (name, price))) rest overrides = rest (insert name price overrides)

-- strconv.ParseFloat(value, 64) is a parameter; `none` is its error.
module _ (parse_float : Text → Option Float64) where
  -- A pair, from what cutting it at '=' gave.
  unfoldable pub parse_cut : Option (Text × Text) → Result ClientError (Option (Text × Float64))
  parse_cut none = err plain
  parse_cut (some (raw_name, raw_value)) =
      let value = trim_space raw_value in
      check_override (trim_space raw_name) value (parse_float value)

  -- One turn of the loop of ParseOverrides.
  unfoldable pub parse_pair : Text → Result ClientError (Option (Text × Float64))
  unfolding parse_cut
  parse_pair raw_pair =
      let pair = trim_space raw_pair in
      if text_eq pair [] then ok none else parse_cut (cut_byte b'=' pair)

  unfoldable pub parse_pairs : List Text → Map Float64 → Result ClientError (Map Float64)
  unfolding parse_pair
  parse_pairs [] overrides = ok overrides
  parse_pairs (pair ∷ pairs) overrides =
      add_override (parse_pair pair) (parse_pairs pairs) overrides

  unfoldable pub parse_overrides : Text → Result ClientError (Map Float64)
  parse_overrides raw =
      if text_eq (trim_space raw) [] then ok [] else parse_pairs (split_byte b',' raw) []
