-- ===== src/Float/Ticks.antt =====
-- A number type that meets the laws, to run the program and to witness its theorems: fixed-point
-- numbers with twelve decimals, as integers of their last one, and `none` for NaN. Literals and quotients
-- are cut to twelve decimals.
use crypto_trading_mcp.Prelude.{
  ℕ, suc, ◌+◌, ◌-◌, ◌*◌, ◌/◌, refl, Bool, true, false, Option, none, some, arith, ltb, leb, eqb,
  if◌then◌else◌,
}
use Prim.Native.Nat.{◌^◌}
use crypto_trading_mcp.Float.{Float}
use crypto_trading_mcp.Float.Laws.{IsOrdered, IsMonotone}

pub data ℤ : Type 0 where
  pos : ℕ → ℤ
  negsuc : ℕ → ℤ

abbrev pub pos_part : ℤ → ℕ
pos_part (pos n) = n
pos_part (negsuc n) = 0

abbrev pub neg_part : ℤ → ℕ
neg_part (pos n) = 0
neg_part (negsuc n) = suc n

abbrev pub sub_ℕ : ℕ → ℕ → ℤ
sub_ℕ a b = if leb b a then pos (a - b) else negsuc (b - a - 1)

abbrev size : ℤ → ℕ
size a = pos_part a + neg_part a

abbrev is_neg : ℤ → Bool
is_neg (pos n) = false
is_neg (negsuc n) = true

-- A magnitude with the sign of a product.
abbrev signed : Bool → ℕ → ℤ
signed true m = sub_ℕ 0 m
signed false m = pos m

abbrev differ : Bool → Bool → Bool
differ true b = if b then false else true
differ false b = b

abbrev scale : ℕ
scale = 1_000_000_000_000

abbrev pub Ticks : Type 0
Ticks = Option ℤ

abbrev both : (ℤ → ℤ → ℤ) → Ticks → Ticks → Ticks
both g (some a) (some b) = some (g a b)
both g _ _ = none

abbrev test : (ℕ → ℕ → Bool) → Ticks → Ticks → Bool
test g (some a) (some b) = g (pos_part a + neg_part b) (pos_part b + neg_part a)
test g _ _ = false

abbrev abs_ℤ : Ticks → Ticks
abs_ℤ (some a) = some (pos (size a))
abs_ℤ none = none

instance abbrev pub ticks_float : Float Ticks
ticks_float = record {
  dec = λ m k. some (pos (m * scale / 10 ^ k));
  add = both (λ a b. sub_ℕ (pos_part a + pos_part b) (neg_part a + neg_part b));
  sub = both (λ a b. sub_ℕ (pos_part a + neg_part b) (neg_part a + pos_part b));
  mul = both (λ a b. signed (differ (is_neg a) (is_neg b)) (size a * size b / scale));
  quot = both (λ a b. signed (differ (is_neg a) (is_neg b)) (size a * scale / size b));
  abs = abs_ℤ;
  le = test leb;
  lt = test ltb;
  same = test eqb;
}

pub Ticks-IsOrdered : IsOrdered Ticks
Ticks-IsOrdered = ground arith

pub Ticks-IsMonotone : IsMonotone Ticks
Ticks-IsMonotone = record {
  nought_refl = refl;
  nought-lt-dec = λ m. ground arith;
  le-add_right = λ x y h k l. ground arith;
  sub-le = λ x y h k l. ground arith;
  mul_nonneg = λ x y h k l. ground arith;
  quot_nonneg = λ x y h k l. ground arith;
  abs_nonneg = λ x h. ground arith;
}
