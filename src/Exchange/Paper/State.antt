-- ===== src/Exchange/Paper/State.antt =====
-- The attributes of `PaperExchange` and the methods that touch only them: prices, failures, halts,
-- and the rules of positions. The configuration is read once and given here as values; events
-- carry no time stamp.
use crypto_trading_mcp.Prelude.{
  ℕ, ◌+◌, String, Bool, true, false, ◌&&◌, ◌||◌, Option, none, some, List, [], ◌∷◌, ◌++◌, ◌==◌,
  one_of, leb, if◌then◌else◌, get_or,
}
use text.Mathlib.Text.{starts_with}
use crypto_trading_mcp.Text.{upper}
use crypto_trading_mcp.Dict.{Dict, get, put}
use crypto_trading_mcp.Errors.{Result, ok, err, paper_exchange_error}
use crypto_trading_mcp.Float.{Float, nought}
use crypto_trading_mcp.Exchange.Models.{
  AssetClass, crypto, prediction_contract, Order, OrderStatus, Fill,
}
use crypto_trading_mcp.Exchange.Costs.{FeeEngine, SlippageEngine}
use crypto_trading_mcp.Exchange.Trailing
use crypto_trading_mcp.Exchange.Trailing.{TrailingStopState, atr, percentage, fixed_distance}
use crypto_trading_mcp.Portfolio.Manager
use crypto_trading_mcp.Portfolio.Manager.{PortfolioManager}

pub data Event (W : Type 0) : Type 0 where
  order_rejected : Option String → Option String → Event W
  order_submitted : Option String → String → Event W
  order_cancelled : Option String → Event W
  order_filled : Option String → W → W → W → Event W
  order_partially_filled : Option String → W → W → W → Event W
  position_updated : String → W → Event W
  stop_triggered : Option String → Option W → W → Event W
  stop_moved_to_breakeven : String → W → Event W
  stop_updated : String → W → Event W
  partial_take_profit : String → W → W → W → Event W
  position_closed : String → String → W → W → Event W
  paper_pnl_updated : String → W → Event W
  circuit_breaker_triggered : ℕ → Event W
  kill_switch_triggered : String → Event W
  eod : List (Option String) → List String → W → W → Event W

pub record Trade (W : Type 0) : Type 0 where
  pub trade_id : String
  pub order_id : Option String
  pub instrument : String
  pub asset_class : AssetClass
  pub strategy_id : Option String
  pub strategy_version : Option String
  pub entry : Option W
  pub exit : W
  pub quantity : W
  pub gross_pnl : W
  pub fees : W
  pub slippage : W
  pub net_pnl : W
  pub entry_time : Option String
  pub exit_time : String
  pub reason_for_exit : String

pub record PartialTakeProfit (W : Type 0) : Type 0 where
  pub exit_quantity_percent : W
  pub done : Bool

pub record PaperExchange (W : Type 0) : Type 0 where
  pub session_id : String
  pub fee_engine : FeeEngine W
  pub slippage_engine : SlippageEngine W
  pub portfolio : PortfolioManager W
  pub instruments : Dict AssetClass
  pub prices : Dict W
  pub orders : Dict (Order W)
  pub fills : List (Fill W)
  pub events : List (Event W)
  pub trades : List (Trade W)
  pub api_failures : ℕ
  pub max_consecutive_api_failures : ℕ
  pub halted : Bool
  pub halt_reason : Option String
  pub order_seq : ℕ
  pub fill_seq : ℕ
  pub be_flags : Dict Bool
  pub partial_tp : Dict (PartialTakeProfit W)
  pub mean_reversion_exit : Dict W
  pub trailing : Dict (TrailingStopState W)
  pub seen_client_ids : List String
  pub failure_mode : Option String
  pub stale_symbols : List String
  pub flatten_at_eod : Bool

-- `set.discard`
unfoldable pub discard : String → List String → List String
discard s [] = []
discard s (t ∷ ts) = let rest = discard s ts in if t == s then rest else t ∷ rest

abbrev pub is_open : OrderStatus → Bool
is_open OrderStatus.created = true
is_open OrderStatus.validated = true
is_open OrderStatus.submitted = true
is_open OrderStatus.partially_filled = true
is_open _ = false

-- `not symbol or o.symbol.upper() == symbol.upper()`
abbrev pub is_of : Option String → String → Bool
is_of none symbol = true
is_of (some s) symbol = (s == "") || (upper symbol == upper s)

module _ {W : Type 0} where
  -- PaperExchange._emit
  abbrev pub emit : Event W → PaperExchange W → PaperExchange W
  emit e x = record x { events = x.events ++ e ∷ [] }

  -- PaperExchange.set_price
  unfoldable pub set_price : String → W → PaperExchange W → PaperExchange W
  set_price symbol price x = record x {
    prices = put (upper symbol) price x.prices;
    stale_symbols = discard (upper symbol) x.stale_symbols;
  }

  -- PaperExchange.mark_stale
  unfoldable pub mark_stale : String → PaperExchange W → PaperExchange W
  mark_stale symbol x = record x { stale_symbols = upper symbol ∷ x.stale_symbols }

  -- PaperExchange.get_market_price
  pub get_market_price : String → PaperExchange W → Result W
  get_market_price symbol x = elim (get (upper symbol) x.prices) [
    | none ↦ err paper_exchange_error
    | some price ↦ ok price
  ]

  -- PaperExchange._asset_class
  unfoldable pub asset_class_of : PaperExchange W → String → AssetClass
  asset_class_of x symbol = elim (get (upper symbol) x.instruments) [
    | some c ↦ c
    | none ↦ if starts_with (upper symbol) "PREDICT/" then prediction_contract else crypto
  ]

  -- PaperExchange.record_api_failure
  unfoldable pub record_api_failure : PaperExchange W → PaperExchange W
  record_api_failure x =
      let failures = x.api_failures + 1 in
      if leb x.max_consecutive_api_failures failures
      then emit (circuit_breaker_triggered failures) (record x {
        api_failures = failures;
        halted = true;
        halt_reason = some "API_FAILURE_CIRCUIT_BREAKER";
      })
      else record x { api_failures = failures }

  -- PaperExchange.record_api_success
  unfoldable pub record_api_success : PaperExchange W → PaperExchange W
  record_api_success x = record x { api_failures = 0 }

  -- PaperExchange.simulate_failure
  unfoldable pub simulate_failure : String → PaperExchange W → PaperExchange W
  simulate_failure mode x =
      let x' = record x { failure_mode = some mode } in
      if one_of mode (
        "timeout" ∷ "rate_limit" ∷ "connection_error" ∷ "exchange_unavailable" ∷ "stale_market_data"
        ∷ [])
      then record_api_failure x'
      else x'

  -- PaperExchange.clear_failure
  unfoldable pub clear_failure : PaperExchange W → PaperExchange W
  clear_failure x = record_api_success (record x { failure_mode = none })

  -- PaperExchange.halt
  unfoldable pub halt : String → PaperExchange W → PaperExchange W
  halt reason x =
      let x' = record x { halted = true; halt_reason = some reason } in
      if starts_with reason "KILL" then emit (kill_switch_triggered reason) x' else x'

  -- PaperExchange.reset_halt
  unfoldable pub reset_halt : PaperExchange W → PaperExchange W
  reset_halt x = record x {
    halted = false;
    halt_reason = none;
    api_failures = 0;
    failure_mode = none;
  }

  -- PaperExchange.get_order, without the raise
  abbrev pub find_order : String → PaperExchange W → Option (Order W)
  find_order id x = get id x.orders

  -- `self.orders[order.order_id] = order`, and any change to an order that the dict holds: the
  -- dict and its reader share the object.
  abbrev pub put_order : Order W → PaperExchange W → PaperExchange W
  put_order o x = record x { orders = put (get_or o.order_id "") o x.orders }

  -- The orders of the dict that are open, and, with a symbol, only those of the symbol.
  unfoldable pub open_of : Option String → Dict (Order W) → List (Order W)
  open_of symbol [] = []
  open_of symbol ((id, o) ∷ orders) =
      let rest = open_of symbol orders in
      if is_open o.status && is_of symbol o.symbol then o ∷ rest else rest

  -- PaperExchange.get_open_orders
  abbrev pub get_open_orders : Option String → PaperExchange W → List (Order W)
  get_open_orders symbol x = open_of symbol x.orders

-- What the constructor takes from the configuration.
pub record PaperConfig (W : Type 0) : Type 0 where
  pub initial_cash : W
  pub fee_engine : FeeEngine W
  pub slippage_engine : SlippageEngine W
  pub instruments : Dict AssetClass
  pub max_consecutive_api_failures : ℕ
  pub flatten_at_eod : Bool

-- PaperExchange.__init__, without a portfolio and prices
unfoldable pub new : {W : Type 0} ⦃f : Float W⦄ → PaperConfig W → String → PaperExchange W
new c session_id = record {
  session_id = session_id;
  fee_engine = c.fee_engine;
  slippage_engine = c.slippage_engine;
  portfolio = Manager.new c.initial_cash;
  instruments = c.instruments;
  prices = [];
  orders = [];
  fills = [];
  events = [];
  trades = [];
  api_failures = 0;
  max_consecutive_api_failures = c.max_consecutive_api_failures;
  halted = false;
  halt_reason = none;
  order_seq = 0;
  fill_seq = 0;
  be_flags = [];
  partial_tp = [];
  mean_reversion_exit = [];
  trailing = [];
  seen_client_ids = [];
  failure_mode = none;
  stale_symbols = [];
  flatten_at_eod = c.flatten_at_eod;
}

-- The keyword arguments of `configure_position_rules`.
pub record PositionRules (W : Type 0) : Type 0 where
  pub move_be_at_1r : Bool
  pub partial_tp_pct : Option W
  pub trailing_atr : Option W
  pub trailing_mult : W
  pub trailing_pct : Option W
  pub trailing_distance : Option W
  pub mean_reversion_sma : Option W
  pub allow_widen : Bool

module _ {W : Type 0} ⦃f : Float W⦄ where
  -- The trailing rules, each over the last; the defaults of `TrailingStopState` are 2.0 and 0.02.
  trailing_rules :
      String → PositionRules W → Dict (TrailingStopState W) → Dict (TrailingStopState W)
  trailing_rules sym r states =
      let base : TrailingStopState W = record {
        mode = atr;
        atr = nought;
        multiplier = f.dec 2 0;
        percentage = f.dec 2 2;
        distance = nought;
        allow_widen = r.allow_widen;
      } in
      let with_atr : Dict (TrailingStopState W) = elim r.trailing_atr [
        | none ↦ states
        | some a ↦
            Trailing.configure sym (record base { atr = a; multiplier = r.trailing_mult }) states
      ] in
      let with_pct : Dict (TrailingStopState W) = elim r.trailing_pct [
        | none ↦ with_atr
        | some p ↦
            Trailing.configure sym (record base { mode = percentage; percentage = p }) with_atr
      ] in
      elim r.trailing_distance [
        | none ↦ with_pct
        | some d ↦
            Trailing.configure sym (record base { mode = fixed_distance; distance = d }) with_pct
      ]

  -- PaperExchange.configure_position_rules
  unfoldable pub configure_position_rules :
      String → PositionRules W → PaperExchange W → PaperExchange W
  unfolding trailing_rules
  configure_position_rules symbol r x =
      let sym = upper symbol in
      record x {
        be_flags = put sym r.move_be_at_1r x.be_flags;
        partial_tp = elim r.partial_tp_pct [
          | none ↦ x.partial_tp
          | some p ↦ put sym (record { exit_quantity_percent = p; done = false }) x.partial_tp
        ];
        trailing = trailing_rules sym r x.trailing;
        mean_reversion_exit = elim r.mean_reversion_sma [
          | none ↦ x.mean_reversion_exit
          | some sma ↦ put sym sma x.mean_reversion_exit
        ];
      }
