-- ===== src/Float/Laws.antt =====
-- The documented behaviour of `float` that theorems rely on, as named hypotheses.
use crypto_trading_mcp.Prelude.{ℕ, suc, ◌≡◌, true, not, ◌&&◌, ◌⊎◌, arith}
use crypto_trading_mcp.Float.{Float, ◌⊕◌, ◌⊖◌, ◌⊗◌, ◌⊘◌, ◌<=◌, ◌<<◌, ◌=?◌, nought, maximum, minimum}

-- IEEE 754 comparison: an order that is total away from NaN, where every comparison is false.
pub record IsOrdered (W : Type 0) ⦃f : Float W⦄ : Type 0 where
  pub refl_of_le : (x y : W) → (x <= y) ≡ true → ((x <= x) ≡ true) × ((y <= y) ≡ true)
  pub le_trans : (x y z : W) → (x <= y) ≡ true → (y <= z) ≡ true → (x <= z) ≡ true
  pub le_total :
      (x y : W) → (x <= x) ≡ true → (y <= y) ≡ true → ((x <= y) ≡ true) ⊎ ((y <= x) ≡ true)
  pub lt-eq : (x y : W) → (x << y) ≡ ((x <= y) && not (y <= x))
  pub same-eq : (x y : W) → (x =? y) ≡ ((x <= y) && (y <= x))

-- The signs of rounded results: rounding keeps the order, so no result that is a number lies on the
-- wrong side. `x + y` and the like can be NaN for infinite arguments, which the last premise of
-- each law leaves out.
pub record IsMonotone (W : Type 0) ⦃f : Float W⦄ : Type 0 where
  pub nought_refl : f.le (f.dec 0 0) (f.dec 0 0) ≡ true
  pub nought-lt-dec : (m : ℕ) → f.lt (f.dec 0 0) (f.dec (suc m) 0) ≡ true
  pub le-add_right :
      (x y : W)
      → (x <= x) ≡ true
      → (nought <= y) ≡ true
      → (x ⊕ y <= x ⊕ y) ≡ true
      → (x <= x ⊕ y) ≡ true
  pub sub-le :
      (x y : W)
      → (x <= x) ≡ true
      → (nought <= y) ≡ true
      → (x ⊖ y <= x ⊖ y) ≡ true
      → (x ⊖ y <= x) ≡ true
  pub mul_nonneg :
      (x y : W)
      → (nought <= x) ≡ true
      → (nought <= y) ≡ true
      → (x ⊗ y <= x ⊗ y) ≡ true
      → (nought <= x ⊗ y) ≡ true
  pub quot_nonneg :
      (x y : W)
      → (nought <= x) ≡ true
      → (nought << y) ≡ true
      → (x ⊘ y <= x ⊘ y) ≡ true
      → (nought <= x ⊘ y) ≡ true
  pub abs_nonneg : (x : W) → (x <= x) ≡ true → (nought <= f.abs x) ≡ true

module _ {W : Type 0} ⦃f : Float W⦄ (o : IsOrdered W) where
  open o use {refl_of_le, le_trans, le_total, lt-eq}

  pub le_of_lt : (x y : W) → (x << y) ≡ true → (x <= y) ≡ true
  le_of_lt x y h = ground (arith, lt-eq x y)

  -- `max` does not fall below its first argument, whatever the second is, NaN included.
  pub le-maximum_left : (x y : W) → (x <= x) ≡ true → (x <= maximum x y) ≡ true
  unfolding maximum
  le-maximum_left x y h = ground (arith, lt-eq x y)

  pub minimum-le_left : (x y : W) → (x <= x) ≡ true → (minimum x y <= x) ≡ true
  unfolding minimum
  minimum-le_left x y h = ground (arith, lt-eq y x)

  pub le-maximum_right : (x y : W) → (x <= x) ≡ true → (y <= y) ≡ true → (y <= maximum x y) ≡ true
  unfolding maximum
  le-maximum_right x y h k = ground (arith, lt-eq x y, le_total x y h k)

  pub minimum-le_right : (x y : W) → (x <= x) ≡ true → (y <= y) ≡ true → (minimum x y <= y) ≡ true
  unfolding minimum
  minimum-le_right x y h k = ground (arith, lt-eq y x, le_total x y h k)

  pub maximum_refl : (x y : W) → (x <= x) ≡ true → (maximum x y <= maximum x y) ≡ true
  maximum_refl x y h = (refl_of_le _ _ (le-maximum_left x y h)).1

  pub minimum_refl : (x y : W) → (x <= x) ≡ true → (minimum x y <= minimum x y) ≡ true
  minimum_refl x y h = (refl_of_le _ _ (minimum-le_left x y h)).0
