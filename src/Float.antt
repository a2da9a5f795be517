-- ===== src/Float.antt =====
-- Python's `float`, which the program does not implement: its literals, operations and comparisons
-- are a parameter. NaN is the value that is not `<=` itself.
pub mod Laws
pub mod Ticks
use crypto_trading_mcp.Prelude.{ℕ, Bool, if◌then◌else◌}

pub record Float (W : Type 0) : Type 0 where
  -- The literal m · 10⁻ᵏ.
  pub dec : ℕ → ℕ → W
  pub add : W → W → W
  pub sub : W → W → W
  pub mul : W → W → W
  -- Division by a value that is not zero; a zero divisor raises in Python, before this is reached.
  pub quot : W → W → W
  pub abs : W → W
  pub le : W → W → Bool
  pub lt : W → W → Bool
  pub same : W → W → Bool

module _ {W : Type 0} ⦃f : Float W⦄ where
  open f use {dec, add, sub, mul, quot, le, lt, same}

  infixl 65 ◌⊕◌ ◌⊖◌
  infixl 70 ◌⊗◌ ◌⊘◌
  infix 50 ◌<=◌ ◌<<◌ ◌>=◌ ◌>>◌ ◌=?◌
  abbrev pub ◌⊕◌ : W → W → W
  x ⊕ y = add x y

  abbrev pub ◌⊖◌ : W → W → W
  x ⊖ y = sub x y

  abbrev pub ◌⊗◌ : W → W → W
  x ⊗ y = mul x y

  abbrev pub ◌⊘◌ : W → W → W
  x ⊘ y = quot x y

  abbrev pub ◌<=◌ : W → W → Bool
  x <= y = le x y

  abbrev pub ◌<<◌ : W → W → Bool
  x << y = lt x y

  abbrev pub ◌>=◌ : W → W → Bool
  x >= y = le y x

  abbrev pub ◌>>◌ : W → W → Bool
  x >> y = lt y x

  abbrev pub ◌=?◌ : W → W → Bool
  x =? y = same x y

  abbrev pub nought : W
  nought = dec 0 0

  -- The built-in `max(a, b)` and `min(a, b)`: `a`, unless `b` is strictly better.
  unfoldable pub maximum : W → W → W
  maximum a b = if lt a b then b else a

  unfoldable pub minimum : W → W → W
  minimum a b = if lt b a then b else a
