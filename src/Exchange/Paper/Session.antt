-- ===== src/Exchange/Paper/Session.antt =====
-- `on_price_update`, which advances the resting orders and then the position, and `end_of_day`.
use crypto_trading_mcp.Prelude.{
  String, true, false, Option, none, some, List, [], ◌∷◌, ◌++◌, map, if◌then◌else◌, get_or,
}
use crypto_trading_mcp.Dict.{Dict, get}
use crypto_trading_mcp.Errors.{err, key_error}
use crypto_trading_mcp.Action.{Action, pure, modify, each, ◌>>=◌}
use crypto_trading_mcp.Float.{Float}
use crypto_trading_mcp.Exchange.Models
use crypto_trading_mcp.Exchange.Models.{Order, OrderType, Fill}
use crypto_trading_mcp.Exchange.Ids.{Runtime}
use crypto_trading_mcp.Portfolio.Manager
use crypto_trading_mcp.Portfolio.Manager.{Position, PortfolioSnapshot}
use crypto_trading_mcp.Exchange.Paper.State.{
  PaperExchange, stop_triggered, eod, emit, set_price, get_open_orders,
}
use crypto_trading_mcp.Exchange.Paper.Fills.{fill_market}
use crypto_trading_mcp.Exchange.Paper.Orders.{
  price_or, limit_triggered, stop_triggered_at, take_profit_triggered, cancel_order,
}
use crypto_trading_mcp.Exchange.Paper.Exits.{exit_position, manage_open_position}

module _ {W : Type 0} ⦃f : Float W⦄ (py : Runtime W) where
  -- The fill that a triggered stop reports: the totals of the order.
  abbrev stop_fill : W → Order W → Fill W
  stop_fill fill_px o = record {
    fill_id = none;
    order_id = get_or o.order_id "";
    symbol = o.symbol;
    side = o.side;
    quantity = o.filled_quantity;
    requested_price = o.requested_price;
    fill_price = price_or o.average_fill_price fill_px;
    slippage = o.slippage;
    fee = o.fees;
    liquidity = "taker";
  }

  -- A triggered stop or target, at its price of execution.
  unfoldable pub triggered : Order W → W → String → Action (PaperExchange W) (List (Fill W))
  triggered o fill_px now x =
      (fill_market py o fill_px false now >>= λ o'. pure (stop_fill fill_px o' ∷ []))
        (emit (stop_triggered o.order_id o.stop_price fill_px) x)

  -- One open order at a price: the body of the loop.
  unfoldable pub advance : W → String → Order W → Action (PaperExchange W) (List (Fill W))
  unfolding triggered
  advance price now o = elim o.order_type [
    | Models.market ↦ pure []
    | Models.limit ↦
        if limit_triggered o price
        then (fill_market py o (price_or o.limit_price price) true now >>= λ o'. pure o'.fills)
        else pure []
    | Models.stop ↦ if stop_triggered_at o price then triggered o price now else pure []
    | Models.stop_limit ↦
        if stop_triggered_at o price
        then triggered o (price_or o.limit_price price) now
        else pure []
    | Models.take_profit ↦ if take_profit_triggered o price then triggered o price now else pure []
  ]

  -- The loop, over the orders that are open at its start.
  unfoldable pub advance_all :
      W → String → List (Order W) → Action (PaperExchange W) (List (Fill W))
  advance_all price now [] = pure []
  advance_all price now (o ∷ os) = advance price now o >>= λ new_fills.
      advance_all price now os >>= λ rest. pure (new_fills ++ rest)

  -- PaperExchange.on_price_update
  unfoldable pub on_price_update : String → W → String → Action (PaperExchange W) (List (Fill W))
  on_price_update symbol price now x =
      let x' = set_price symbol price x in
      (advance_all price now (get_open_orders (some symbol) x') >>= λ new_fills.
      manage_open_position py symbol price now >>= λ _. pure new_fills)
        x'

  -- `self.cancel_order(order.order_id or "")`, without its result.
  unfoldable pub cancel_one : String → Order W → Action (PaperExchange W) (Unit {0})
  cancel_one now o = cancel_order (get_or o.order_id "") now >>= λ _. pure tt

  -- The flattening of one position.
  unfoldable pub flatten : String → String → Action (PaperExchange W) (Unit {0})
  flatten now symbol x = elim (get symbol x.portfolio.positions) [
    | none ↦ (err key_error, x)
    | some p ↦
        exit_position py symbol (get_or (get symbol x.prices) p.current_price) "EOD_FLATTEN" now x
  ]

  abbrev pub keys : Dict (Position W) → List String
  keys = map (λ kv. kv.0)

  unfoldable pub flatten_all : String → Action (PaperExchange W) (List String)
  flatten_all now x =
      let symbols = keys x.portfolio.positions in
      (if x.flatten_at_eod then (each (flatten now) symbols >>= λ _. pure symbols) else pure []) x

  -- The snapshot, the reset of the day, and the record of the day.
  unfoldable pub close_day : List (Option String) → List String → PaperExchange W → PaperExchange W
  close_day cancelled closed x =
      let (snap, m) = Manager.snapshot x.prices x.portfolio in
      emit (eod cancelled closed snap.equity snap.daily_pnl)
        (record x { portfolio = Manager.reset_day m })

  -- PaperExchange.end_of_day; the record of the day is its last event.
  unfoldable pub end_of_day : String → Action (PaperExchange W) (Unit {0})
  unfolding flatten_all close_day
  end_of_day now x =
      let open_orders = get_open_orders none x in
      (each (cancel_one now) open_orders >>= λ _.
      flatten_all now >>= λ closed. modify (close_day (map (λ o. o.order_id) open_orders) closed))
        x
