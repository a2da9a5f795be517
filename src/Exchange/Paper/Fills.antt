-- ===== src/Exchange/Paper/Fills.antt =====
-- `PaperExchange._fill_market`: the price, the fee, the booking in the portfolio, and the fill.
use Prim.Native.String.{◌++◌ as join}
use crypto_trading_mcp.Prelude.{
  ◌+◌, String, Bool, true, false, ◌&&◌, Option, none, some, List, [], ◌∷◌, ◌++◌, ◌==◌, one_of,
  if◌then◌else◌, get_or, length, if_some,
}
use crypto_trading_mcp.Dict.{get, put}
use crypto_trading_mcp.Errors.{PyError, Result, ok, err}
use crypto_trading_mcp.Action.{continue}
use crypto_trading_mcp.Float.{Float, ◌⊕◌, ◌⊖◌, ◌⊗◌, ◌⊘◌, ◌>=◌, ◌>>◌, nought}
use crypto_trading_mcp.Exchange.Models
use crypto_trading_mcp.Exchange.Models.{
  AssetClass, Order, OrderStatus, Fill, asset_value, side_value, buys,
}
use crypto_trading_mcp.Exchange.Ids.{Runtime, or_else, ensure_fill_id}
use crypto_trading_mcp.Exchange.Costs
use crypto_trading_mcp.Exchange.Costs.{calculate}
use crypto_trading_mcp.Portfolio.Manager.{
  Position, PortfolioManager, Tags, open_position, close_position,
}
use crypto_trading_mcp.Exchange.Paper.State.{
  PaperExchange, Event, order_filled, order_partially_filled, position_updated, emit, put_order,
}

abbrev is_prediction : AssetClass → Bool
is_prediction Models.prediction_contract = true
is_prediction _ = false

-- What a fill trades, and at what price.
pub record Quote (W : Type 0) : Type 0 where
  pub fill_price : W
  pub slippage : W
  pub liquidity : String
  pub quantity : W
  pub fee : W

-- `order.symbol in positions and positions[order.symbol].side in sides`
abbrev pub holds : {W : Type 0} → List String → String → PortfolioManager W → Bool
holds sides symbol m = if_some false (λ p. one_of p.side sides) (get symbol m.positions)

module _ {W : Type 0} ⦃f : Float W⦄ where
  -- The price of a fill: after slippage, and for a limit order its limit.
  unfoldable pub priced : Order W → W → Bool → PaperExchange W → W × W × String
  priced o market_price limit_fill x =
      let slip =
        Costs.apply x.slippage_engine (side_value o.side) market_price
          (is_prediction o.instrument_type) none (some (o.quantity ⊖ o.filled_quantity)) none in
      elim (if limit_fill then o.limit_price else none) [
        | none ↦ (slip.fill_price, slip.slippage_abs, if limit_fill then "maker" else "taker")
        | some limit ↦ (limit, f.abs (limit ⊖ market_price), "maker")
      ]

  -- The first half of `_fill_market`, up to the fee.
  unfoldable pub quote : Order W → W → Bool → PaperExchange W → Quote W
  unfolding priced
  quote o market_price limit_fill x =
      let (fill_price, slippage, liquidity) = priced o market_price limit_fill x in
      let remaining = o.quantity ⊖ o.filled_quantity in
      let qty =
        if elim x.failure_mode [ none ↦ false | some mode ↦ mode == "partial_fill" ]
          && (remaining >> nought)
        then remaining ⊘ f.dec 2 0
        else remaining in
      record {
        fill_price = fill_price;
        slippage = slippage;
        liquidity = liquidity;
        quantity = qty;
        fee =
            (calculate x.fee_engine (qty ⊗ fill_price) (asset_value o.instrument_type) liquidity
              (some "paper")).fee;
      }

  abbrev pub tags_of : Order W → Tags W
  tags_of o = record {
    stop_loss = o.stop_loss;
    take_profit = o.take_profit;
    strategy_id = o.strategy_id;
    strategy_version = o.strategy_version;
  }

  -- `open_position` with the order's tags, without its result.
  unfoldable pub opened :
      String
      → Order W
      → Quote W
      → String
      → PortfolioManager W
      → Result (Option W) × PortfolioManager W
  opened side o q now m =
      continue (open_position o.symbol side q.quantity q.fill_price q.fee (tags_of o) now m)
        (λ p m'. (ok none, m'))

  -- The block under `try`: the gain of a sale that closes, for `_record_trade`.
  unfoldable pub booked :
      Order W → Quote W → String → PortfolioManager W → Result (Option W) × PortfolioManager W
  unfolding opened
  booked o q now m =
      if buys o.side
      then (if holds ("SHORT" ∷ "SELL" ∷ []) o.symbol m
          then continue (close_position o.symbol (some q.quantity) q.fill_price q.fee now m)
              (λ pnl m'. (ok none, m'))
          else opened "LONG" o q now m)
      else if holds ("LONG" ∷ "BUY" ∷ []) o.symbol m
      then continue (close_position o.symbol (some q.quantity) q.fill_price q.fee now m)
          (λ pnl m'. (ok (some pnl), m'))
      else opened "SHORT" o q now m

module _ {W : Type 0} ⦃f : Float W⦄ (py : Runtime W) where
  abbrev pub trade_id_of : PaperExchange W → String
  trade_id_of x = join "TRD-" (join x.session_id (join "-" (py.padded (length x.trades + 1))))

  -- PaperExchange._record_trade, for a gain
  unfoldable pub record_trade :
      Option W → Order W → Quote W → String → PaperExchange W → PaperExchange W
  record_trade none o q now x = x
  record_trade (some pnl) o q now x = record x {
    trades =
        x.trades
        ++ record {
          trade_id = trade_id_of x;
          order_id = o.order_id;
          instrument = o.symbol;
          asset_class = o.instrument_type;
          strategy_id = o.strategy_id;
          strategy_version = o.strategy_version;
          entry = none;
          exit = q.fill_price;
          quantity = q.quantity;
          gross_pnl = pnl ⊕ q.fee;
          fees = q.fee;
          slippage = q.slippage;
          net_pnl = pnl;
          entry_time = none;
          exit_time = now;
          reason_for_exit = "CLOSE";
        }
          ∷ [];
  }

  abbrev refused_with : PyError → String → Order W → Order W
  refused_with e now o = record o { reject_reason = some (py.message e); updated_at = now }

  -- The block under `except`: a raise of `transition` leaves it.
  unfoldable pub failed :
      PyError → String → Order W → PaperExchange W → Result (Order W) × PaperExchange W
  failed e now o x = elim o.status [
    | Models.rejected ↦ let o' = refused_with e now o in (ok o', put_order o' x)
    | Models.cancelled ↦ let o' = refused_with e now o in (ok o', put_order o' x)
    | Models.submitted ↦
        let o' = refused_with e now (record o { status = Models.rejected }) in
        (ok o', put_order o' x)
    | _ ↦
        let (r, o') = Models.transition now Models.rejected o in
        elim r [
          | ok u ↦ let o'' = refused_with e now o' in (ok o'', put_order o'' x)
          | err e' ↦ (err e', put_order o' x)
        ]
  ]

  -- The position after the fill: the order's protection and strategy.
  abbrev protected : Order W → Position W → Position W
  protected o p = record p {
    stop_loss = elim o.stop_loss [ none ↦ p.stop_loss | some s ↦ some s ];
    take_profit = elim o.take_profit [ none ↦ p.take_profit | some t ↦ some t ];
    strategy_id = or_else o.strategy_id p.strategy_id;
    strategy_version = or_else o.strategy_version p.strategy_version;
  }

  -- The end of `_fill_market`, at the position.
  unfoldable pub protect : Order W → PaperExchange W → PaperExchange W
  protect o x = elim (get o.symbol x.portfolio.positions) [
    | none ↦ x
    | some p ↦ emit (position_updated o.symbol p.quantity) (record x {
      portfolio = record x.portfolio {
        positions = put o.symbol (protected o p) x.portfolio.positions;
      };
    })
  ]

  abbrev pub fill_of : Order W → Quote W → PaperExchange W → Fill W
  fill_of o q x = ensure_fill_id py (x.fill_seq + 1) (record {
    fill_id = none;
    order_id = get_or o.order_id "";
    symbol = o.symbol;
    side = o.side;
    quantity = q.quantity;
    requested_price = o.requested_price;
    fill_price = q.fill_price;
    slippage = q.slippage;
    fee = q.fee;
    liquidity = q.liquidity;
  })

  -- The order with the fill in its totals.
  abbrev pub with_fill : Quote W → Order W → Order W
  with_fill q o = record o {
    filled_quantity = o.filled_quantity ⊕ q.quantity;
    average_fill_price = some q.fill_price;
    fees = o.fees ⊕ q.fee;
    slippage = q.slippage;
  }

  abbrev pub filled_event : Order W → Quote W → Event W
  filled_event o q = elim o.status [
    | Models.filled ↦ order_filled o.order_id q.fill_price q.fee q.slippage
    | _ ↦ order_partially_filled o.order_id q.fill_price q.fee q.slippage
  ]

  -- After the transition of the order: the fill is put on it, reported, and the position protected.
  unfoldable pub noted :
      Result (Unit {0}) × Order W
      → Quote W
      → Fill W
      → PaperExchange W
      → Result (Order W) × PaperExchange W
  unfolding protect
  noted (err e, o) q fill x = (err e, put_order o x)
  noted (ok u, o) q fill x =
      let o' = record o { fills = fill ∷ [] } in
      (ok o', protect o' (emit (filled_event o' q) (put_order o' x)))

  -- `order.filled_quantity + 1e-12 >= order.quantity`
  abbrev pub is_full : Order W → Bool
  is_full o = (o.filled_quantity ⊕ f.dec 1 12) >= o.quantity

  -- The end of `_fill_market`, once the portfolio has booked the trade.
  unfoldable pub recorded :
      Order W → Quote W → String → PaperExchange W → Result (Order W) × PaperExchange W
  recorded o q now x =
      let fill = fill_of o q x in
      let x' = record x { fill_seq = x.fill_seq + 1; fills = x.fills ++ fill ∷ [] } in
      let target = if is_full (with_fill q o) then Models.filled else Models.partially_filled in
      noted (Models.transition now target (with_fill q o)) q fill x'

  -- What follows the booking.
  unfoldable pub settled :
      Result (Option W)
      → Order W
      → Quote W
      → String
      → PaperExchange W
      → Result (Order W) × PaperExchange W
  settled (ok pnl) o q now x = recorded o q now (record_trade pnl o q now x)
  settled (err e) o q now x = failed e now o x

  -- PaperExchange._fill_market
  unfoldable pub fill_market :
      Order W → W → Bool → String → PaperExchange W → Result (Order W) × PaperExchange W
  fill_market o market_price limit_fill now x =
      let q = quote o market_price limit_fill x in
      let (r, m) = booked o q now x.portfolio in settled r o q now (record x { portfolio = m })
