-- ===== src/Prelude/Float.antt =====
-- float64: the finite values as integers, the infinities and NaN. A finite value counts a fixed
-- unit, 1/102400000, in which every price that the program computes is a whole number; the rounding
-- of binary fractions is not modelled.
use Prim.Native.Nat.{ℕ}
use mathlib.Core.Path.{◌≡◌, refl}
use mathlib.Core.Bool.{Bool, true, false}
use native.Mathlib.Omega.{arith}
use karpenter_provider_stack.Prelude.Tests.{ltb, leb}

-- `negsuc n` is -(n + 1).
pub data ℤ : Type 0 where
  pos : ℕ → ℤ
  negsuc : ℕ → ℤ

pub data Float64 : Type 0 where
  finite : ℤ → Float64
  pos_inf neg_inf nan : Float64

abbrev pub ltb_ℤ : ℤ → ℤ → Bool
ltb_ℤ (pos a) (pos b) = ltb a b
ltb_ℤ (pos a) (negsuc b) = false
ltb_ℤ (negsuc a) (pos b) = true
ltb_ℤ (negsuc a) (negsuc b) = ltb b a

abbrev pub leb_ℤ : ℤ → ℤ → Bool
leb_ℤ (pos a) (pos b) = leb a b
leb_ℤ (pos a) (negsuc b) = false
leb_ℤ (negsuc a) (pos b) = true
leb_ℤ (negsuc a) (negsuc b) = leb b a

-- `a < b` and `a <= b`: false wherever NaN takes part.
unfoldable pub ltf : Float64 → Float64 → Bool
ltf (finite a) (finite b) = ltb_ℤ a b
ltf (finite a) pos_inf = true
ltf neg_inf (finite b) = true
ltf neg_inf pos_inf = true
ltf _ _ = false

unfoldable pub lef : Float64 → Float64 → Bool
lef (finite a) (finite b) = leb_ℤ a b
lef (finite a) pos_inf = true
lef pos_inf pos_inf = true
lef neg_inf (finite b) = true
lef neg_inf pos_inf = true
lef neg_inf neg_inf = true
lef _ _ = false

abbrev pub zero_float : Float64
zero_float = finite (pos 0)

abbrev pub is_nan : Float64 → Bool
is_nan nan = true
is_nan _ = false

-- Of numbers that are no NaN: if a is not below b and b is not below c, then a is not below c.
pub not-ltf_trans :
    (a b c : Float64) → is_nan b ≡ false → ltf a b ≡ false → ltf b c ≡ false → ltf a c ≡ false
unfolding ltf
not-ltf_trans a b c n h k = ground arith

pub ltf_asymm : (a b : Float64) → ltf a b ≡ true → ltf b a ≡ false
unfolding ltf
ltf_asymm a b h = ground arith

pub ltf_irrefl : (a : Float64) → ltf a a ≡ false
unfolding ltf
ltf_irrefl (finite (pos n)) = ground arith
ltf_irrefl (finite (negsuc n)) = ground arith
ltf_irrefl _ = refl
