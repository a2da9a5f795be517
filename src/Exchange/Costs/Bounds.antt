-- ===== src/Exchange/Costs/Bounds.antt =====
-- Bounds of the simulated costs.
use crypto_trading_mcp.Prelude.{
  String, ◌≡◌, Bool, true, false, Option, arith, Bool-cases, inl, inr, if◌then◌else◌,
}
use crypto_trading_mcp.Float.{Float, ◌⊕◌, ◌⊖◌, ◌⊗◌, ◌⊘◌, ◌<=◌, nought, maximum, minimum}
use crypto_trading_mcp.Float.Laws.{IsOrdered, IsMonotone}
use crypto_trading_mcp.Exchange.Costs.{SlippageEngine, slippage_bps, raw_bps, is_buy, apply}

module _ {W : Type 0} ⦃f : Float W⦄ (o : IsOrdered W) (m : IsMonotone W) where
  clamp_bounds :
      (x hi : W)
      → (nought <= hi) ≡ true
      → let y = minimum (maximum x nought) hi in
        (y <= y) ≡ true → ((nought <= y) ≡ true) × ((y <= hi) ≡ true)
  unfolding maximum minimum
  clamp_bounds x hi h n = ground (
    arith,
    o.lt-eq x nought,
    o.lt-eq hi x,
    o.lt-eq hi nought,
    m.nought_refl,
    o.le_total x nought,
    o.le_total x hi,
    o.refl_of_le nought hi,
  )

  -- The simulated slippage lies between 0 and `max_bps`, unless the configured model computes NaN.
  pub slippage_bps_bounds :
      (s : SlippageEngine W) (volatility trade_qty adv : Option W)
      → (nought <= s.max_bps) ≡ true
      → (slippage_bps s volatility trade_qty adv <= slippage_bps s volatility trade_qty adv) ≡ true
      → ((nought <= slippage_bps s volatility trade_qty adv) ≡ true)
        × ((slippage_bps s volatility trade_qty adv <= s.max_bps) ≡ true)
  unfolding slippage_bps
  slippage_bps_bounds s volatility trade_qty adv h n =
      ground (
        arith,
        clamp_bounds (raw_bps s s.model volatility trade_qty adv) s.max_bps h,
        m.nought_refl,
      )

  unit_clamp :
      (x : W)
      → ((nought <= minimum (f.dec 1 0) (maximum nought x)) ≡ true)
        × ((minimum (f.dec 1 0) (maximum nought x) <= f.dec 1 0) ≡ true)
  unfolding maximum minimum
  unit_clamp x = ground (
    arith,
    o.lt-eq nought x,
    o.lt-eq x (f.dec 1 0),
    o.lt-eq nought (f.dec 1 0),
    m.nought-lt-dec 0,
    m.nought_refl,
    o.refl_of_le nought (f.dec 1 0),
    o.refl_of_le nought x,
    o.le_total x (f.dec 1 0),
  )

  -- On a prediction contract the price after slippage lies between 0 and 1, whatever the side, the
  -- market price and the slippage are, NaN included.
  pub apply_prediction_bounds :
      (s : SlippageEngine W) (side : String) (market_price : W)
      (volatility trade_qty adv : Option W)
      → let fill = (apply s side market_price true volatility trade_qty adv).fill_price in
        ((nought <= fill) ≡ true) × ((fill <= f.dec 1 0) ≡ true)
  unfolding apply
  apply_prediction_bounds s side market_price volatility trade_qty adv = unit_clamp _

  -- The move of the price by a share `b` of it, with its sign.
  slip_nonneg :
      (p b : W)
      → (nought <= p) ≡ true
      → (nought <= b) ≡ true
      → (b ⊘ f.dec 10_000 0 <= b ⊘ f.dec 10_000 0) ≡ true
      → (p ⊗ (b ⊘ f.dec 10_000 0) <= p ⊗ (b ⊘ f.dec 10_000 0)) ≡ true
      → (nought <= p ⊗ (b ⊘ f.dec 10_000 0)) ≡ true
  slip_nonneg p b hp hb n k =
      m.mul_nonneg p (b ⊘ f.dec 10_000 0) hp
        (m.quot_nonneg b (f.dec 10_000 0) hb (m.nought-lt-dec 9999) n) k

  moved_adverse :
      (buying : Bool) (p x : W)
      → (nought <= p) ≡ true
      → (nought <= x) ≡ true
      → ((if buying then p ⊕ x else p ⊖ x) <= (if buying then p ⊕ x else p ⊖ x)) ≡ true
      → (if buying
          then p <= (if buying then p ⊕ x else p ⊖ x)
          else (if buying then p ⊕ x else p ⊖ x) <= p)
        ≡ true
  moved_adverse true p x hp hx n = m.le-add_right p x (o.refl_of_le nought p hp).1 hx n
  moved_adverse false p x hp hx n = m.sub-le p x (o.refl_of_le nought p hp).1 hx n

  -- The clamp of a prediction contract keeps the move on its side of a price of at most 1.
  clamped_adverse :
      (buying : Bool) (p y : W)
      → (nought <= p) ≡ true
      → (p <= f.dec 1 0) ≡ true
      → (y <= y) ≡ true
      → (if buying then p <= y else y <= p) ≡ true
      → let z = minimum (f.dec 1 0) (maximum nought y) in (if buying then p <= z else z <= p) ≡ true
  unfolding maximum minimum
  clamped_adverse true p y hp h1 hy h = ground (
    arith,
    o.lt-eq nought y,
    o.lt-eq y (f.dec 1 0),
    o.lt-eq nought (f.dec 1 0),
    m.nought_refl,
    o.le_trans p y nought,
    o.le_total nought y,
  )
  clamped_adverse false p y hp h1 hy h = ground (
    arith,
    o.lt-eq nought y,
    o.lt-eq y (f.dec 1 0),
    o.lt-eq nought (f.dec 1 0),
    m.nought-lt-dec 0,
    o.le_total y (f.dec 1 0),
    o.le_trans (f.dec 1 0) y p,
    o.refl_of_le nought p,
    o.refl_of_le p (f.dec 1 0),
  )

  -- Slippage is adverse: a buy fills at the market price or above it and a sell at it or below it,
  -- for a market price and a `max_bps` that are not negative, where the basis points, the slip and
  -- the price it moves to are not NaN. On a prediction contract, whose fill is clamped between 0 and
  -- 1, the market price is moreover at most 1.
  pub apply_adverse :
      (s : SlippageEngine W) (side : String) (p b : W) (prediction : Bool)
      (volatility trade_qty adv : Option W)
      → (nought <= p) ≡ true
      → (prediction ≡ true → (p <= f.dec 1 0) ≡ true)
      → (nought <= s.max_bps) ≡ true
      → slippage_bps s volatility trade_qty adv ≡ b
      → (b <= b) ≡ true
      → (b ⊘ f.dec 10_000 0 <= b ⊘ f.dec 10_000 0) ≡ true
      → (p ⊗ (b ⊘ f.dec 10_000 0) <= p ⊗ (b ⊘ f.dec 10_000 0)) ≡ true
      → (let slip = p ⊗ (b ⊘ f.dec 10_000 0) in
          (if is_buy side then p ⊕ slip else p ⊖ slip)
          <= (if is_buy side then p ⊕ slip else p ⊖ slip))
        ≡ true
      → (if is_buy side
          then p <= (apply s side p prediction volatility trade_qty adv).fill_price
          else (apply s side p prediction volatility trade_qty adv).fill_price <= p)
        ≡ true
  unfolding apply
  apply_adverse s side p b prediction volatility trade_qty adv hp h1 hm e n1 n2 n3 n4 =
      let bps = (rw e at (slippage_bps_bounds s volatility trade_qty adv hm (rw e n1))).0 in
      let moved =
        moved_adverse (is_buy side) p (p ⊗ (b ⊘ f.dec 10_000 0)) hp (slip_nonneg p b hp bps n2 n3)
          n4 in
      rw e (elim (Bool-cases prediction) [
        | inl h ↦ rw h (clamped_adverse (is_buy side) p _ hp (h1 h) n4 moved)
        | inr h ↦ rw h moved
      ])
