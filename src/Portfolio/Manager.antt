-- ===== src/Portfolio/Manager.antt =====
-- crypto_trading_mcp/portfolio/manager.py: `PortfolioManager` method by method. `positions` is the
-- dict of positions by symbol; the clock is an argument `now`. A method that raises returns the
-- manager as it stands at the `raise`.
pub mod Errors
pub mod Frame
pub mod Snapshot
use crypto_trading_mcp.Prelude.{
  ℕ, ◌+◌, String, Bool, ◌||◌, Option, none, some, List, [], ◌∷◌, ◌++◌, ◌==◌, one_of, if◌then◌else◌,
  get_or,
}
use crypto_trading_mcp.Text.{upper}
use crypto_trading_mcp.Dict.{Dict, get, put, remove}
use crypto_trading_mcp.Errors.{Result, ok, err, value_error, key_error, zero_division}
use crypto_trading_mcp.Float.{Float, ◌⊕◌, ◌⊖◌, ◌⊗◌, ◌⊘◌, ◌<=◌, ◌<<◌, ◌>>◌, nought, maximum, minimum}

pub record Position (W : Type 0) : Type 0 where
  pub symbol : String
  pub side : String
  pub quantity : W
  pub average_entry_price : W
  pub current_price : W
  pub market_value : W
  pub unrealized_pnl : W
  pub realized_pnl : W
  pub fees : W
  pub stop_loss : Option W
  pub take_profit : Option W
  pub strategy_id : Option String
  pub strategy_version : Option String
  pub opened_at : String

pub record PortfolioManager (W : Type 0) : Type 0 where
  pub cash : W
  pub realized_pnl : W
  pub fees_paid : W
  pub peak_equity : W
  pub day_start_equity : W
  pub positions : Dict (Position W)
  pub trades_today : ℕ
  pub last_trade_at : Option String

pub record PortfolioSnapshot (W : Type 0) : Type 0 where
  pub cash : W
  pub equity : W
  pub available_cash : W
  pub positions_exposure : W
  pub realized_pnl : W
  pub unrealized_pnl : W
  pub fees : W
  pub daily_pnl : W
  pub drawdown_pct : W
  pub peak_equity : W
  pub positions : List (Position W)
  pub trades_today : ℕ
  pub last_trade_at : Option String

-- The optional arguments of `open_position` that it only stores.
pub record Tags (W : Type 0) : Type 0 where
  pub stop_loss : Option W
  pub take_profit : Option W
  pub strategy_id : Option String
  pub strategy_version : Option String

-- `side.upper() in {"LONG", "BUY"}` and its opposite.
abbrev pub is_long : String → Bool
is_long side = one_of (upper side) ("LONG" ∷ "BUY" ∷ [])

abbrev pub is_short : String → Bool
is_short side = one_of (upper side) ("SHORT" ∷ "SELL" ∷ [])

-- The sums of the loop of `snapshot`: unrealized, exposure, equity.
abbrev pub Totals : Type 0 → Type 0
Totals W = W × W × W

module _ {W : Type 0} ⦃f : Float W⦄ where
  open f use {dec, abs, same}

  abbrev pub new : W → PortfolioManager W
  new starting_cash = record {
    cash = starting_cash;
    realized_pnl = nought;
    fees_paid = nought;
    peak_equity = starting_cash;
    day_start_equity = starting_cash;
    positions = [];
    trades_today = 0;
    last_trade_at = none;
  }

  -- Position.mark
  unfoldable pub mark : W → Position W → Position W
  mark price p = record p {
    current_price = price;
    market_value = abs p.quantity ⊗ price;
    unrealized_pnl =
        if is_long p.side
        then (price ⊖ p.average_entry_price) ⊗ p.quantity
        else (p.average_entry_price ⊖ price) ⊗ p.quantity;
  }

  -- One round of the loop of `snapshot`.
  abbrev add_position : Position W → Totals W → Totals W
  add_position p (unrealized, exposure, equity) = (
    unrealized ⊕ p.unrealized_pnl,
    exposure ⊕ p.market_value,
    (if is_long p.side then equity ⊕ p.market_value else equity ⊖ p.market_value),
  )

  -- A position at the given mark, or at its present price where there is none.
  abbrev marked : Dict W → String → Position W → Position W
  marked marks symbol p = mark (get_or (get symbol marks) p.current_price) p

  unfoldable pub mark_all : Dict W → Dict (Position W) → Dict (Position W)
  unfolding mark
  mark_all marks [] = []
  mark_all marks ((symbol, p) ∷ ps) = (symbol, marked marks symbol p) ∷ mark_all marks ps

  unfoldable pub sum_positions : Dict (Position W) → Totals W → Totals W
  sum_positions [] acc = acc
  sum_positions ((symbol, p) ∷ ps) acc = sum_positions ps (add_position p acc)

  values : Dict (Position W) → List (Position W)
  values [] = []
  values ((symbol, p) ∷ ps) = p ∷ values ps

  drawdown : W → W → W
  drawdown peak equity = if peak <= nought then nought else maximum nought ((peak ⊖ equity) ⊘ peak)

  -- PortfolioManager.snapshot: it marks the positions in place and moves the peak.
  unfoldable pub snapshot : Dict W → PortfolioManager W → PortfolioSnapshot W × PortfolioManager W
  unfolding mark_all sum_positions values drawdown
  snapshot marks m =
      let positions = mark_all marks m.positions in
      let (unrealized, exposure, equity) = sum_positions positions (nought, nought, m.cash) in
      let peak = maximum m.peak_equity equity in
      (
        record {
          cash = m.cash;
          equity = equity;
          available_cash = maximum m.cash nought;
          positions_exposure = exposure;
          realized_pnl = m.realized_pnl;
          unrealized_pnl = unrealized;
          fees = m.fees_paid;
          daily_pnl = equity ⊖ m.day_start_equity;
          drawdown_pct = drawdown peak equity;
          peak_equity = peak;
          positions = values positions;
          trades_today = m.trades_today;
          last_trade_at = m.last_trade_at;
        },
        record m { peak_equity = peak; positions = positions },
      )

  -- PortfolioManager.reset_day
  unfoldable pub reset_day : PortfolioManager W → PortfolioManager W
  reset_day m =
      let (snap, m') = snapshot [] m in
      record m' { day_start_equity = snap.equity; trades_today = 0 }

  -- The cash after `open_position` has paid or been paid, or the exception.
  unfoldable pub settle : String → W → W → PortfolioManager W → Result W
  settle side notional fee m =
      if is_long side
      then (if (notional ⊕ fee) >> (m.cash ⊕ dec 1 9)
          then err value_error
          else ok (m.cash ⊖ (notional ⊕ fee)))
      else if is_short side
      then ok (m.cash ⊕ (notional ⊖ fee))
      else err value_error

  new_position : String → String → W → W → W → Tags W → String → Position W
  new_position symbol side quantity price fee tags now = record {
    symbol = symbol;
    side = upper side;
    quantity = quantity;
    average_entry_price = price;
    current_price = price;
    market_value = quantity ⊗ price;
    unrealized_pnl = nought;
    realized_pnl = nought;
    fees = fee;
    stop_loss = tags.stop_loss;
    take_profit = tags.take_profit;
    strategy_id = tags.strategy_id;
    strategy_version = tags.strategy_version;
    opened_at = now;
  }

  -- An existing position that grows. A total of zero divides by zero.
  grow : W → W → W → Position W → Result (Position W)
  unfolding mark
  grow quantity price fee p =
      let total_qty = p.quantity ⊕ quantity in
      if same total_qty nought
      then err zero_division
      else ok (
          mark price (record p {
            quantity = total_qty;
            average_entry_price =
                (p.average_entry_price ⊗ p.quantity ⊕ price ⊗ quantity) ⊘ total_qty;
            fees = p.fees ⊕ fee;
          }))

  -- The position that `open_position` leaves at its symbol, or the exception.
  unfoldable pub booked :
      Option (Position W) → String → String → W → W → W → Tags W → String → Result (Position W)
  unfolding new_position grow
  booked none symbol side quantity price fee tags now =
      ok (new_position symbol side quantity price fee tags now)
  booked (some p) symbol side quantity price fee tags now =
      if upper p.side == upper side then grow quantity price fee p else err value_error

  -- What `open_position` does once the cash and the fees are written.
  unfoldable pub book :
      Result (Position W)
      → String
      → String
      → PortfolioManager W
      → Result (Position W) × PortfolioManager W
  book (err e) symbol now m = (err e, m)
  book (ok p) symbol now m = (
    ok p,
    record m {
      positions = put symbol p m.positions;
      trades_today = m.trades_today + 1;
      last_trade_at = some now;
    },
  )

  -- PortfolioManager.open_position
  unfoldable pub open_position :
      String
      → String
      → W
      → W
      → W
      → Tags W
      → String
      → PortfolioManager W
      → Result (Position W) × PortfolioManager W
  open_position symbol side quantity price fee tags now m =
      if (quantity <= nought) || (price <= nought)
      then (err value_error, m)
      else elim (settle side (quantity ⊗ price) fee m) [
        | err e ↦ (err e, m)
        | ok cash ↦
            book (booked (get symbol m.positions) symbol side quantity price fee tags now) symbol
              now (record m { cash = cash; fees_paid = m.fees_paid ⊕ fee })
      ]

  -- The position after `qty` of it is closed, or `none` where it is deleted.
  pub reduced : W → W → W → W → Position W → Option (Position W)
  unfolding mark
  reduced qty price fee pnl p =
      let p' = record p { realized_pnl = p.realized_pnl ⊕ pnl; fees = p.fees ⊕ fee } in
      if abs (p.quantity ⊖ qty) << dec 1 12
      then none
      else some (mark price (record p' { quantity = p.quantity ⊖ qty }))

  pub store : String → Option (Position W) → Dict (Position W) → Dict (Position W)
  store symbol none ps = remove symbol ps
  store symbol (some p) ps = put symbol p ps

  pub gain : W → W → W → Position W → W
  gain qty price fee p =
      (if is_long p.side
        then (price ⊖ p.average_entry_price) ⊗ qty
        else (p.average_entry_price ⊖ price) ⊗ qty)
      ⊖ fee

  close_found :
      Position W → String → W → W → W → String → PortfolioManager W → Result W × PortfolioManager W
  unfolding reduced store gain
  close_found p symbol qty price fee now m =
      if (qty <= nought) || (qty >> (p.quantity ⊕ dec 1 12))
      then (err value_error, m)
      else let pnl = gain qty price fee p in
        (
          ok pnl,
          record m {
            cash =
                if is_long p.side
                then m.cash ⊕ (qty ⊗ price ⊖ fee)
                else m.cash ⊖ (qty ⊗ price ⊕ fee);
            realized_pnl = m.realized_pnl ⊕ pnl;
            fees_paid = m.fees_paid ⊕ fee;
            positions = store symbol (reduced qty price fee pnl p) m.positions;
            trades_today = m.trades_today + 1;
            last_trade_at = some now;
          },
        )

  -- PortfolioManager.close_position; without a quantity, all of the position.
  unfoldable pub close_position :
      String → Option W → W → W → String → PortfolioManager W → Result W × PortfolioManager W
  unfolding close_found
  close_position symbol quantity price fee now m = elim (get symbol m.positions) [
    | none ↦ (err key_error, m)
    | some p ↦ close_found p symbol (get_or quantity p.quantity) price fee now m
  ]
