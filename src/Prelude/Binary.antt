-- ===== src/Prelude/Binary.antt =====
-- float64 arithmetic on finite values that are not negative: a value is a whole number over a power of
-- two, and a result is rounded to 53 significant bits, ties to even. Overflow and values below the
-- normal range are not modelled.
use Prim.Native.Nat.{ℕ, zero, suc, ◌+◌, ◌-◌, ◌*◌, ◌/◌, ◌%◌, ◌^◌, ◌<◌}
use mathlib.Core.Path.{◌≡◌}
use mathlib.Core.Logic.{inl, inr}
use native.Mathlib.Omega.{arith}
use karpenter_provider_stack.Prelude.Tests.{ltb, ◌==◌, Bool-cases, if◌then◌else◌}

-- mantissa / 2 ^ scale.
pub record Binary : Type 0 where
  pub mantissa : ℕ
  pub scale : ℕ

-- The number of binary digits, on fuel for each of them.
unfoldable pub bits : ℕ → ℕ → ℕ
bits zero n = 0
bits (suc fuel) n = let rest = bits fuel (n / 2) in if n == 0 then 0 else suc rest

-- To the nearest multiple of a unit, ties to the even one.
unfoldable pub nearest : ℕ → ℕ → ℕ
nearest unit n =
    let low = n / unit * unit in
    let rest = 2 * (n % unit) in
    if ltb rest unit
    then low
    else if ltb unit rest
    then low + unit
    else if n / unit % 2 == 0
    then low
    else low + unit

-- To 53 significant bits. The fuel is enough for every mantissa below 2 ^ 2048.
unfoldable pub rounded : ℕ → ℕ
unfolding bits nearest
rounded n = nearest (2 ^ (bits 2048 n - 53)) n

abbrev pub float_of : ℕ → Binary
float_of n = record { mantissa = rounded n; scale = 0 }

unfoldable pub mul : Binary → Binary → Binary
unfolding rounded
mul x y = record { mantissa = rounded (x.mantissa * y.mantissa); scale = x.scale + y.scale }

-- By a whole number that is not 0: 128 more digits than the mantissa has, and one for what is left,
-- decide the rounding.
unfoldable pub div : Binary → ℕ → Binary
unfolding rounded
div x n =
    let long = x.mantissa * 2 ^ 128 in
    let sticky = if long % n == 0 then 0 else 1 in
    record { mantissa = rounded (2 * (long / n) + sticky); scale = x.scale + 129 }

-- math.Ceil.
unfoldable pub ceil : Binary → ℕ
ceil x = (x.mantissa + (2 ^ x.scale - 1)) / 2 ^ x.scale

power_step : (k : ℕ) → 2 ^ suc k ≡ 2 * 2 ^ k
power_step k = omega arith

-- The fuel is enough: a number with no more digits than there is fuel is below 2 to the power of the
-- digits that are counted.
bits_enough : (fuel n : ℕ) → n < 2 ^ fuel → n < 2 ^ bits fuel n
unfolding bits
bits_enough zero n h = h
bits_enough (suc fuel) n h = elim (Bool-cases (n == 0)) [
  | inl none_left ↦ rw none_left (ground (arith, none_left))
  | inr some_left ↦
      let half = bits_enough fuel (n / 2) (omega (arith, power_step fuel)) in
      rw some_left (omega (arith, half, power_step (bits fuel (n / 2))))
]
