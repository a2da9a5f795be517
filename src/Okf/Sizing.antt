-- ===== src/Okf/Sizing.antt =====
-- crypto_trading_mcp/okf/sizing.py: the size of a position from its distance to the stop, and the
-- quarter Kelly fraction. The built-in `round` is a parameter.
use crypto_trading_mcp.Prelude.{
  ◌≡◌, ℕ, Bool, true, false, ◌||◌, Option, none, some, arith, if◌then◌else◌,
}
use crypto_trading_mcp.Float.{Float, ◌⊖◌, ◌⊗◌, ◌⊘◌, ◌<=◌, ◌<<◌, nought, maximum, minimum}
use crypto_trading_mcp.Float.Laws.{IsOrdered, le-maximum_left, maximum_refl, minimum-le_right}

pub data SizingReason : Type 0 where
  stop_loss_required zero_stop_distance invalid_sizing_inputs below_min_order_size : SizingReason
  sizing_ok invalid_payoff_ratio kelly_ok : SizingReason

-- The replies, of which only those with "ok" carry a size.
pub data Sizing (W : Type 0) : Type 0 where
  -- The reason, and the raw quantity where it is known.
  refusal : SizingReason → Option W → Sizing W
  -- The quantity, the raw quantity, the notional at risk and the distance to the stop.
  sized : W → W → W → W → Sizing W

abbrev pub is_sized : {W : Type 0} → Sizing W → Bool
is_sized (refusal reason raw) = false
is_sized (sized quantity raw risk_notional stop_distance) = true

pub record Kelly (W : Type 0) : Type 0 where
  pub reason : SizingReason
  pub full_kelly : W
  pub effective_fraction : W

-- The arguments of `atr_position_quantity`.
pub record SizingRequest (W : Type 0) : Type 0 where
  pub account_equity : W
  pub risk_percent : W
  pub entry_price : W
  pub stop_loss_price : Option W
  pub min_qty : W
  pub qty_precision : ℕ
  pub max_qty : Option W

module _ {W : Type 0} ⦃f : Float W⦄ where
  -- qty, if max_qty is None else min(qty, max_qty)
  abbrev pub capped : Option W → W → W
  capped none x = x
  capped (some m) x = minimum x m

  -- The end of `atr_position_quantity`, at the raw quantity and the distance.
  unfoldable pub rounded_size : (W → ℕ → W) → SizingRequest W → W → W → Sizing W
  rounded_size round r raw distance =
      let qty = capped r.max_qty (round raw r.qty_precision) in
      if qty << r.min_qty
      then refusal below_min_order_size (some raw)
      else sized qty raw (r.account_equity ⊗ r.risk_percent) distance

  -- atr_position_quantity
  unfoldable pub atr_position_quantity : (W → ℕ → W) → SizingRequest W → Sizing W
  atr_position_quantity round r = elim r.stop_loss_price [
    | none ↦ refusal stop_loss_required none
    | some stop ↦
        let distance = f.abs (r.entry_price ⊖ stop) in
        if distance <= nought
        then refusal zero_stop_distance none
        else if ((r.account_equity <= nought) || (r.risk_percent <= nought))
            || (r.entry_price <= nought)
        then refusal invalid_sizing_inputs none
        else rounded_size round r ((r.account_equity ⊗ r.risk_percent) ⊘ distance) distance
  ]

  -- quarter_kelly_fraction
  unfoldable pub quarter_kelly_fraction : W → W → W → Option W → Kelly W
  quarter_kelly_fraction p b kelly_multiplier max_fraction =
      let q = f.dec 1 0 ⊖ p in
      let full = maximum nought ((p ⊗ b ⊖ q) ⊘ b) in
      if b <= nought
      then record {
        reason = invalid_payoff_ratio;
        full_kelly = nought;
        effective_fraction = nought;
      }
      else record {
        reason = kelly_ok;
        full_kelly = full;
        effective_fraction = capped max_fraction (maximum nought (kelly_multiplier ⊗ full));
      }

module _ {W : Type 0} ⦃f : Float W⦄ (o : IsOrdered W) where
  open o use {refl_of_le}

  nought-le-minimum :
      (x y : W) → (nought <= x) ≡ true → (nought <= y) ≡ true → (nought <= minimum x y) ≡ true
  unfolding minimum
  nought-le-minimum x y h k = ground arith

  -- A position that is sized lies at or below the cap and not below the smallest order, and its
  -- stop is apart from its entry.
  pub atr_position_quantity_bounds :
      (round : W → ℕ → W) (r : SizingRequest W) (m quantity raw risk distance : W)
      → r.max_qty ≡ some m
      → (m <= m) ≡ true
      → (round raw r.qty_precision <= round raw r.qty_precision) ≡ true
      → atr_position_quantity round r ≡ sized quantity raw risk distance
      → ((quantity <= m) ≡ true)
        × ((quantity << r.min_qty) ≡ false)
        × ((distance <= nought) ≡ false)
  unfolding atr_position_quantity rounded_size
  atr_position_quantity_bounds round r m quantity raw risk distance h k n e = (
    ground (arith, minimum-le_right o (round raw r.qty_precision) m n k),
    ground arith,
    ground arith,
  )

  -- Whatever the probability, the payoff and the multiplier are, NaN included, the effective
  -- fraction lies between 0 and the largest fraction allowed, where that is not negative.
  pub quarter_kelly_fraction_bounds :
      (p b kelly_multiplier m : W)
      → (nought <= m) ≡ true
      → let k = quarter_kelly_fraction p b kelly_multiplier (some m) in
        ((nought <= k.effective_fraction) ≡ true) × ((k.effective_fraction <= m) ≡ true)
  unfolding quarter_kelly_fraction
  quarter_kelly_fraction_bounds p b kelly_multiplier m h =
      let n = (refl_of_le nought m h).0 in
      let x = maximum nought (kelly_multiplier ⊗ maximum nought ((p ⊗ b ⊖ (f.dec 1 0 ⊖ p)) ⊘ b)) in
      (
        ground (arith, nought-le-minimum x m (le-maximum_left o nought _ n) h),
        ground
            (arith, minimum-le_right o x m (maximum_refl o nought _ n) (refl_of_le nought m h).1),
      )
