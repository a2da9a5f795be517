-- ===== src/Tests/Paper.antt =====
-- The simulated venue at concrete calls.
use crypto_trading_mcp.Prelude.{◌≡◌, refl, ℕ, true, false, none, some, List, [], ◌∷◌}
use crypto_trading_mcp.Errors.{ok}
use crypto_trading_mcp.Dict.{get}
use crypto_trading_mcp.Float.{nought}
use crypto_trading_mcp.Float.Ticks.{Ticks, ticks_float, Ticks-IsOrdered, Ticks-IsMonotone}
use crypto_trading_mcp.Exchange.Models.{Order, AssetClass, OrderStatus, OrderType, OrderSide}
use crypto_trading_mcp.Exchange.Costs.{SlippageModel}
use crypto_trading_mcp.Exchange.Ids.{Runtime}
use crypto_trading_mcp.Portfolio.Manager.{Position}
use crypto_trading_mcp.Exchange.Paper.State.{PaperExchange}
use crypto_trading_mcp.Exchange.Paper.Fills.{quote, fill_market}
use crypto_trading_mcp.Exchange.Paper.Orders.{create_order, received, reject}
use crypto_trading_mcp.Exchange.Paper.Calls
use crypto_trading_mcp.Exchange.Paper.Calls.{Call, run}
use crypto_trading_mcp.Exchange.Paper.Bounds.{IsProbability, IsFilled, fill_market-IsProbability}
use crypto_trading_mcp.Exchange.Paper.Duplicates.{duplicate_refused}
use crypto_trading_mcp.Exchange.Paper.Halts.{halted_rejects, IsRejected}
use crypto_trading_mcp.Exchange.Paper.Refusals.{fill_market-Outcome, Outcome, IsSound}

abbrev units : ℕ → Ticks
units n = ticks_float.dec n 0

abbrev python : Runtime Ticks
python = record {
  digest = λ s. s;
  fixed = λ x. "1.0";
  padded = λ n. "000001";
  decimal = λ n. "1";
  message = λ e. "error";
}

abbrev long : Position Ticks
long = record {
  symbol = "BTC/USD";
  side = "LONG";
  quantity = units 2;
  average_entry_price = units 100;
  current_price = units 110;
  market_value = units 220;
  unrealized_pnl = units 20;
  realized_pnl = nought;
  fees = units 1;
  stop_loss = none;
  take_profit = none;
  strategy_id = none;
  strategy_version = none;
  opened_at = "09:00";
}

abbrev venue : PaperExchange Ticks
venue = record {
  session_id = "S1";
  fee_engine = record {
    default_rate = nought;
    maker_bps = units 10;
    taker_bps = units 20;
    by_asset_class = [];
    by_exchange = [];
    explicit_default = false;
  };
  slippage_engine = record {
    enabled = false;
    model = SlippageModel.fixed_bps;
    default_bps = nought;
    max_bps = nought;
    percentage = nought;
    volatility_multiplier = nought;
    volume_impact = nought;
  };
  portfolio = record {
    cash = units 1_000;
    realized_pnl = nought;
    fees_paid = units 1;
    peak_equity = units 1_300;
    day_start_equity = units 1_200;
    positions = ("BTC/USD", long) ∷ [];
    trades_today = 1;
    last_trade_at = some "09:00";
  };
  instruments = ("BTC/USD", AssetClass.crypto) ∷ [];
  prices = ("BTC/USD", units 110) ∷ [];
  orders = [];
  fills = [];
  events = [];
  trades = [];
  api_failures = 0;
  max_consecutive_api_failures = 5;
  halted = false;
  halt_reason = none;
  order_seq = 0;
  fill_seq = 0;
  be_flags = [];
  partial_tp = [];
  mean_reversion_exit = [];
  trailing = [];
  seen_client_ids = [];
  failure_mode = none;
  stale_symbols = [];
  flatten_at_eod = true;
}

abbrev purchase : OrderStatus → Order Ticks
purchase status = record {
  order_id = some "ORD-1";
  client_order_id = some "CLI-1";
  exchange = "paper";
  session_id = none;
  instrument_id = none;
  symbol = "BTC/USD";
  instrument_type = AssetClass.crypto;
  side = OrderSide.buy;
  order_type = OrderType.market;
  quantity = units 1;
  filled_quantity = nought;
  limit_price = none;
  stop_price = none;
  status = status;
  strategy_id = none;
  strategy_version = none;
  requested_price = none;
  average_fill_price = none;
  fees = nought;
  slippage = nought;
  reject_reason = none;
  updated_at = "09:00";
  stop_loss = none;
  take_profit = none;
  fills = [];
}

abbrev calls : List (Call Ticks)
calls =
    Calls.on_price_update "BTC/USD" (units 120) "09:02"
    ∷ Calls.halt "drill"
    ∷ Calls.cancel_order "ORD-1" "09:03"
    ∷ Calls.end_of_day "17:00"
    ∷ []

duplicate_refused_example :
    let first = purchase OrderStatus.created in
    let later = record first { quantity = units 7 } in
    let y = run python (create_order python first (some (units 110)) "09:01" venue).1 calls in
    let (result, z) = create_order python later none "18:00" y in
    (result ≡ ok (reject python "DUPLICATE_ORDER" (received python later y).0))
    × (z.portfolio ≡ y.portfolio)
    × (z.fills ≡ y.fills)
    × (z.trades ≡ y.trades)
duplicate_refused_example =
    duplicate_refused python (purchase OrderStatus.created)
      (record (purchase OrderStatus.created) { quantity = units 7 }) (some (units 110)) none "09:01"
      "18:00" "CLI-1" venue calls refl refl

halted_rejects_example : IsRejected python (run python (record venue { halted = true }) calls) (
    create_order python
      (purchase OrderStatus.created)
      (some (units 110))
      "18:00"
      (run python (record venue { halted = true }) calls))
halted_rejects_example =
    halted_rejects python (purchase OrderStatus.created) (some (units 110)) "18:00"
      (record venue { halted = true }) calls refl refl

-- One bitcoin more, at a price without slippage.
purchase-quantity :
    (quote (purchase OrderStatus.submitted) (units 110) false venue).quantity ≡ units 1
unfolding quote
purchase-quantity = refl

purchase-IsSound :
    IsSound (quote (purchase OrderStatus.submitted) (units 110) false venue).quantity (some long)
purchase-IsSound = (refl, rw purchase-quantity refl)

fill_market-Outcome_example :
    Outcome python venue
      (fill_market python (purchase OrderStatus.submitted) (units 110) false "09:01" venue)
unfolding get
fill_market-Outcome_example =
    fill_market-Outcome python (purchase OrderStatus.submitted) (units 110) false "09:01" venue
      (some long) refl refl purchase-IsSound

-- A prediction contract, sold on the market.
abbrev contract : Order Ticks
contract = record (purchase OrderStatus.submitted) {
  instrument_type = AssetClass.prediction_contract;
  side = OrderSide.sell_yes;
}

fill_market-IsProbability_example :
    IsFilled python IsProbability venue
      (fill_market python contract (ticks_float.dec 70 2) false "09:01" venue).1
fill_market-IsProbability_example =
    fill_market-IsProbability python Ticks-IsOrdered Ticks-IsMonotone contract
      (ticks_float.dec 70 2) false "09:01" venue refl (λ l h. cc)
