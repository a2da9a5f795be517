-- ===== src/Exchange/Paper/Exits.antt =====
-- What a price update does to a position: `_exit_position` and `_manage_open_position`, with the
-- move to break-even, the partial profit, stops, targets, the trailing stop and the reversion exit.
use crypto_trading_mcp.Prelude.{
  String, Bool, true, false, ◌&&◌, ◌||◌, not, Option, none, some, [], ◌∷◌, ◌++◌, one_of,
  if◌then◌else◌, get_or, if_some,
}
use crypto_trading_mcp.Text.{upper}
use crypto_trading_mcp.Dict.{get, put}
use crypto_trading_mcp.Errors.{ok}
use crypto_trading_mcp.Action.{Action, modify, ◌>>=◌}
use crypto_trading_mcp.Float.{Float, ◌⊕◌, ◌⊖◌, ◌⊗◌, ◌⊘◌, ◌<=◌, ◌<<◌, ◌>=◌, ◌>>◌, ◌=?◌, nought}
use crypto_trading_mcp.Exchange.Models.{asset_value}
use crypto_trading_mcp.Exchange.Ids.{Runtime}
use crypto_trading_mcp.Exchange.Costs.{calculate}
use crypto_trading_mcp.Exchange.Trailing
use crypto_trading_mcp.Portfolio.Manager.{Position, mark, close_position}
use crypto_trading_mcp.Exchange.Paper.State.{
  PaperExchange, stop_moved_to_breakeven, stop_updated, partial_take_profit, position_closed,
  paper_pnl_updated, PartialTakeProfit, emit, asset_class_of,
}
use crypto_trading_mcp.Exchange.Paper.Fills.{trade_id_of}

-- `pos.side in {"LONG", "BUY"}` and its opposite.
abbrev pub is_long_side : String → Bool
is_long_side side = one_of side ("LONG" ∷ "BUY" ∷ [])

abbrev pub is_short_side : String → Bool
is_short_side side = one_of side ("SHORT" ∷ "SELL" ∷ [])

module _ {W : Type 0} ⦃f : Float W⦄ where
  -- self.portfolio.positions.get(symbol)
  abbrev pub position_of : String → PaperExchange W → Option (Position W)
  position_of symbol x = get symbol x.portfolio.positions

  -- A change to a position that the portfolio holds.
  abbrev pub with_position : String → Position W → PaperExchange W → PaperExchange W
  with_position symbol p x = record x {
    portfolio = record x.portfolio { positions = put symbol p x.portfolio.positions };
  }

  -- A change to the stop of the position at the symbol, if there is one.
  abbrev with_stop : String → W → PaperExchange W → PaperExchange W
  with_stop symbol stop x = elim (position_of symbol x) [
    | none ↦ x
    | some p ↦ with_position symbol (record p { stop_loss = some stop }) x
  ]

  -- `self.portfolio.close_position`, on the exchange.
  unfoldable pub closing : String → Option W → W → W → String → Action (PaperExchange W) W
  closing symbol quantity price fee now x =
      let (r, m) = close_position symbol quantity price fee now x.portfolio in
      (r, record x { portfolio = m })

  abbrev fee_of : String → W → W → PaperExchange W → W
  fee_of symbol quantity price x =
      (calculate x.fee_engine (quantity ⊗ price) (asset_value (asset_class_of x symbol)) "taker"
        none).fee

  -- The risk of a position, where its stop is away from its entry.
  pub risk_of : Position W → Option W
  risk_of p = elim p.stop_loss [
    | none ↦ none
    | some stop ↦
        let risk = f.abs (p.average_entry_price ⊖ stop) in
        if not (risk =? nought) && (risk >> nought) then some risk else none
  ]

module _ {W : Type 0} ⦃f : Float W⦄ (py : Runtime W) where
  -- PaperExchange._record_trade_close
  unfoldable pub record_trade_close :
      Position W → W → W → W → String → String → PaperExchange W → PaperExchange W
  record_trade_close p price fee pnl reason now x = record x {
    trades =
        x.trades
        ++ record {
          trade_id = trade_id_of py x;
          order_id = none;
          instrument = p.symbol;
          asset_class = asset_class_of x p.symbol;
          strategy_id = p.strategy_id;
          strategy_version = p.strategy_version;
          entry = some p.average_entry_price;
          exit = price;
          quantity = p.quantity;
          gross_pnl = pnl ⊕ fee;
          fees = fee;
          slippage = nought;
          net_pnl = pnl;
          entry_time = some p.opened_at;
          exit_time = now;
          reason_for_exit = reason;
        }
          ∷ [];
  }

  -- The reports of an exit. A position that is left in part has its new quantity.
  unfoldable pub reported :
      String → Position W → W → W → W → String → String → PaperExchange W → PaperExchange W
  unfolding record_trade_close
  reported symbol p price fee pnl reason now x =
      let left = get_or (position_of (upper symbol) x) p in
      record_trade_close left price fee pnl reason now (
        emit (paper_pnl_updated (upper symbol) pnl)
          (emit (position_closed (upper symbol) reason price pnl) x))

  -- PaperExchange._exit_position
  unfoldable pub exit_position : String → W → String → String → Action (PaperExchange W) (Unit {0})
  unfolding reported
  exit_position symbol price reason now x = elim (position_of (upper symbol) x) [
    | none ↦ (ok tt, x)
    | some p ↦
        let fee = fee_of symbol p.quantity price x in
        (closing (upper symbol) none price fee now >>= λ pnl.
        modify (reported symbol p price fee pnl reason now))
          x
  ]

  -- The move of the stop to the entry.
  abbrev breaks_even : Position W → W → W → Bool
  breaks_even p risk price =
      (is_long_side p.side
        && (price >= (p.average_entry_price ⊕ risk))
        && if_some true (λ s. s << p.average_entry_price) p.stop_loss)
      || (is_short_side p.side
          && (price <= (p.average_entry_price ⊖ risk))
          && if_some true (λ s. s >> p.average_entry_price) p.stop_loss)

  unfoldable pub break_even : String → Position W → W → PaperExchange W → PaperExchange W
  break_even sym p price x = elim (risk_of p) [
    | none ↦ x
    | some risk ↦
        if get_or (get sym x.be_flags) false && breaks_even p risk price
        then (let moved =
              emit (stop_moved_to_breakeven sym p.average_entry_price)
                (with_stop sym p.average_entry_price x) in
            if is_long_side p.side
            then emit (stop_updated sym p.average_entry_price) moved
            else moved)
        else x
  ]

  -- The partial profit, at the risk before the move to break-even.
  abbrev takes_partial : Position W → W → W → W → Bool
  takes_partial p risk pct price =
      (if is_long_side p.side
        then price >= (p.average_entry_price ⊕ risk)
        else price <= (p.average_entry_price ⊖ risk))
      && (pct >> nought)

  abbrev pub finish_partial :
      String → PartialTakeProfit W → W → W → W → PaperExchange W → PaperExchange W
  finish_partial sym t quantity price pnl x =
      let x' = emit (partial_take_profit sym quantity price pnl) x in
      record x' { partial_tp = put sym (record t { done = true }) x'.partial_tp }

  abbrev pub take_share :
      String
      → String
      → Position W
      → PartialTakeProfit W
      → W
      → W
      → String
      → Action (PaperExchange W) (Unit {0})
  take_share symbol sym p t pct price now x =
      let quantity = p.quantity ⊗ pct in
      (closing sym (some quantity) price (fee_of symbol quantity price x) now >>= λ pnl.
      modify (finish_partial sym t quantity price pnl))
        x

  unfoldable pub take_partial :
      String → String → Position W → W → String → Action (PaperExchange W) (Unit {0})
  take_partial symbol sym p price now x = elim (risk_of p) [
    | none ↦ (ok tt, x)
    | some risk ↦ elim (get sym x.partial_tp) [
      | none ↦ (ok tt, x)
      | some t ↦
          let pct = t.exit_quantity_percent ⊘ f.dec 100 0 in
          if not t.done && takes_partial p risk pct price
          then take_share symbol sym p t pct price now x
          else (ok tt, x)
    ]
  ]

  -- The protective exit of a position at a price: its reason.
  pub exit_reason : Position W → W → Option String
  exit_reason p price =
      let below = if_some false (λ l. price <= l) in
      let above = if_some false (λ l. price >= l) in
      let stopped = if is_long_side p.side then below p.stop_loss else above p.stop_loss in
      let reached = if is_long_side p.side then above p.take_profit else below p.take_profit in
      if stopped then some "STOP_LOSS" else if reached then some "TAKE_PROFIT" else none

  -- The trailing stop.
  unfoldable pub trail_stop : String → String → Position W → W → PaperExchange W → PaperExchange W
  trail_stop symbol sym p price x =
      elim (Trailing.update x.trailing symbol p.side price p.stop_loss) [
        | none ↦ x
        | some stop ↦
            if if_some false (λ s. stop =? s) p.stop_loss
            then x
            else emit (stop_updated sym stop) (with_stop sym stop x)
      ]

  -- The exit on the return to the mean.
  unfoldable pub revert : String → String → W → String → Action (PaperExchange W) (Unit {0})
  revert symbol sym price now x = elim (get sym x.mean_reversion_exit) [
    | none ↦ (ok tt, x)
    | some sma ↦ elim (position_of sym x) [
      | none ↦ (ok tt, x)
      | some p ↦
          if (is_long_side p.side && (price <= sma)) || (is_short_side p.side && (price >= sma))
          then exit_position symbol price "MEAN_REVERSION_SMA" now x
          else (ok tt, x)
    ]
  ]

  -- From the second look-up of the position on.
  unfoldable pub protect_position :
      String → String → W → String → Action (PaperExchange W) (Unit {0})
  unfolding exit_reason trail_stop revert
  protect_position symbol sym price now x = elim (position_of sym x) [
    | none ↦ (ok tt, x)
    | some p ↦ elim (exit_reason p price) [
      | some reason ↦ exit_position symbol price reason now x
      | none ↦ revert symbol sym price now (trail_stop symbol sym p price x)
    ]
  ]

  -- PaperExchange._manage_open_position
  unfoldable pub manage_open_position : String → W → String → Action (PaperExchange W) (Unit {0})
  unfolding break_even take_partial protect_position
  manage_open_position symbol price now x =
      let sym = upper symbol in
      elim (position_of sym x) [
        | none ↦ (ok tt, x)
        | some held ↦
            let p = mark price held in
            (take_partial symbol sym p price now >>= λ _. protect_position symbol sym price now)
              (break_even sym p price (with_position sym p x))
      ]
