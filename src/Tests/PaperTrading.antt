-- ===== src/Tests/PaperTrading.antt =====
-- The paper engine at concrete plans.
use crypto_trading_mcp.Prelude.{◌≡◌, refl, ℕ, Bool, true, false, none, some, [], ◌∷◌}
use crypto_trading_mcp.Errors.{Result, ok}
use crypto_trading_mcp.Float.{nought, maximum}
use crypto_trading_mcp.Float.Ticks.{Ticks, ticks_float}
use crypto_trading_mcp.Compliance.{TaxSimulationConfig, TaxResult}
use crypto_trading_mcp.Risk.Config.{activate, pair_allowed, merge_effective_limits}
use crypto_trading_mcp.Risk.Models.{GlobalRiskLimits}
use crypto_trading_mcp.Risk.Correlation.{Powers}
use crypto_trading_mcp.Exchange.Models.{
  Order, AssetClass, transition, OrderStatus-discrete, order_transitions,
}
use crypto_trading_mcp.Exchange.Costs.{SlippageModel, apply, slippage_bps, calculate, rate_for}
use crypto_trading_mcp.Exchange.Ids.{Runtime, ensure_order_id}
use crypto_trading_mcp.Exchange.Paper.State
use crypto_trading_mcp.PaperTrading.Ledger.{SessionStatus}
use crypto_trading_mcp.PaperTrading.Plan.{to_proposal}
use crypto_trading_mcp.PaperTrading.Engine.{
  PaperTradingEngine, EngineConfig, check_stop_file, resolve_conflict, refresh,
}
use crypto_trading_mcp.PaperTrading.Execution.{
  PlanRequest, Reply, refused, attempted, kill_switch_active, execute_approved_plan, first_refusal,
  conflict_checked, compliance_checked, compliance_of, correlation_of, risk_checked, risk_reasons,
  counted, placed, asset_of, settled_plan, booked_plan, log_decision,
}
use crypto_trading_mcp.PaperTrading.Cleared.{IsCleared, attempted-IsCleared}
use crypto_trading_mcp.PaperTrading.Refused.{books, refused-books}
use crypto_trading_mcp.Dict.{get}
use crypto_trading_mcp.Guarded.{fired}
use crypto_trading_mcp.Risk.Engine.{guards, okf_guards, memory_guards}
use crypto_trading_mcp.Risk.Guards.{
  first_guards, stop_guards, bad_stop, reward_guards, low_reward, limit_guards, daily_loss_hit,
}
use crypto_trading_mcp.Text.{upper, lower}
use crypto_trading_mcp.Portfolio.Manager.{snapshot, open_position, settle, book}
use crypto_trading_mcp.Exchange.Paper.Orders.{
  create_order, received, screened, priced, submit, routed,
}
use crypto_trading_mcp.Machine.{contains}
use crypto_trading_mcp.Exchange.Paper.Fills.{fill_market, settled, quote, recorded, noted}
use crypto_trading_mcp.Exchange.Paper.State.{asset_class_of}
use crypto_trading_mcp.Compliance
use crypto_trading_mcp.Portfolio.Manager
use crypto_trading_mcp.Exchange.Paper.Fills
use crypto_trading_mcp.Risk.Engine

abbrev pub units : ℕ → Ticks
units n = ticks_float.dec n 0

abbrev pub cents : ℕ → Ticks
cents n = ticks_float.dec n 2

abbrev pub python : Runtime Ticks
python = record {
  digest = λ s. s;
  fixed = λ x. "1.0";
  padded = λ n. "000001";
  decimal = λ n. "1";
  message = λ e. "error";
}

abbrev pub powers : Powers Ticks
powers = record { square = λ x. ticks_float.mul x x; root = λ x. x }

abbrev pub limits : GlobalRiskLimits Ticks
limits = record {
  max_position_pct = cents 20;
  max_trade_pct = cents 10;
  max_portfolio_exposure_pct = cents 80;
  max_daily_loss_pct = cents 5;
  max_drawdown_pct = cents 15;
  max_trades_per_day = 10;
  max_slippage_pct = cents 1;
  max_leverage = cents 100;
  require_stop_loss = true;
  min_liquidity_usd = cents 100_000;
  min_confidence = cents 55;
  min_risk_reward = cents 150;
  kelly_fraction = cents 25;
  max_consecutive_api_failures = 3;
  allowed_pairs = "BTC/USD" ∷ [];
}

abbrev settings : EngineConfig Ticks
settings = record {
  trading_mode = "paper";
  live_trading_enabled = false;
  exchange = record {
    initial_cash = units 1_000;
    fee_engine = record {
      default_rate = nought;
      maker_bps = units 10;
      taker_bps = units 20;
      by_asset_class = [];
      by_exchange = [];
      explicit_default = false;
    };
    slippage_engine = record {
      enabled = false;
      model = SlippageModel.fixed_bps;
      default_bps = nought;
      max_bps = nought;
      percentage = nought;
      volatility_multiplier = nought;
      volume_impact = nought;
    };
    instruments = ("BTC/USD", AssetClass.crypto) ∷ [];
    max_consecutive_api_failures = 5;
    flatten_at_eod = true;
  };
  session_id_prefix = "PAPER";
  kill_switch_path = "STOP";
  strategy_conflict_mode = "REJECT";
  symbol_strategy_map = ("BTC/*", "momentum") ∷ [];
  config_hash = "";
}

abbrev pub paper : PaperTradingEngine Ticks
paper = record {
  config = settings;
  session = record {
    session_id = "S1";
    started_at = "09:00";
    ended_at = none;
    starting_capital = units 1_000;
    ending_equity = none;
    strategy_versions = [];
    config_hash = "";
    status = SessionStatus.active;
  };
  exchange = State.new settings.exchange "S1";
  kill_switch = record { active = false; reason = none };
  risk_limits = limits;
  okf_resolved = none;
  compliance = record {
    enabled = true;
    blocked_strategies = "martingale" ∷ [];
    blocked_asset_classes = [];
    require_paper_mode = true;
    max_turnover_usd_per_day = units 1_000_000;
    allow_prediction_markets = false;
    allow_futures = true;
  };
  tax = record {
    enabled = false;
    disclaimer = "";
    vda_enabled = false;
    vda_rate = nought;
    vda_asset_classes = [];
    tds_enabled = false;
    tds_rate = nought;
    tds_asset_classes = [];
    loss_setoff_allowed = false;
    equity_transaction_tax = nought;
    commodity_transaction_tax = nought;
    default_transaction_tax = nought;
  };
  max_correlation = cents 85;
  store = record {
    events = [];
    orders = [];
    fills = [];
    trades = [];
    snapshots = [];
    sessions = [];
  };
  running = true;
  decision_log = [];
  daily_turnover = nought;
  strategy_books = [];
  return_history = [];
}

abbrev request : Bool → PlanRequest Ticks
request stop_file = record {
  plan = record {
    strategy_id = "momentum";
    strategy_version = "1.0.0";
    model_ids = "model" ∷ [];
    symbol = "BTC/USD";
    side = "LONG";
    entry_price = units 100;
    quantity = cents 10;
    notional = units 10;
    stop_loss = some (units 97);
    take_profit = some (units 106);
    risk_amount = cents 30;
    expected_fee = nought;
    expected_slippage = nought;
    risk_reward_ratio = some (units 2);
    confidence = cents 66;
    status = "PROPOSED";
    reason = none;
    move_be_at_1r = false;
    partial_tp_pct = none;
  };
  market_price = units 100;
  asset_class = "CRYPTO";
  candidate_returns = [];
  market_data_stale = false;
  run_id = "RUN-1";
  stop_file = stop_file;
  now = "09:01";
}

abbrev answer : Result (Reply Ticks) × PaperTradingEngine Ticks
answer = execute_approved_plan python powers (request false) paper

-- The order is placed and filled.
answered : (o : Order Ticks) × (tax : TaxResult Ticks) × (answer.0 ≡ ok (attempted true o tax))
unfolding execute_approved_plan check_stop_file first_refusal conflict_checked resolve_conflict
    compliance_checked compliance_of correlation_of risk_checked risk_reasons counted refresh placed
    asset_of settled_plan booked_plan log_decision State.new get Compliance.evaluate fired
    Engine.evaluate guards first_guards to_proposal pair_allowed merge_effective_limits upper
    stop_guards bad_stop reward_guards low_reward maximum limit_guards snapshot daily_loss_hit
    okf_guards memory_guards create_order received ensure_order_id screened State.set_price priced
    State.discard submit transition OrderStatus-discrete contains order_transitions routed
    fill_market settled Fills.booked open_position quote apply asset_class_of slippage_bps settle
    calculate rate_for lower book Manager.booked recorded noted
answered = (_, _, refl)

refused_on_stop :
    (execute_approved_plan python powers (request true) paper).0 ≡ ok (refused kill_switch_active)
unfolding execute_approved_plan check_stop_file first_refusal activate
refused_on_stop = refl

attempted-IsCleared_example : IsCleared powers (request false) paper
attempted-IsCleared_example =
    attempted-IsCleared python powers (request false) paper true answered.0 answered.1 answered.2

refused-books_example :
    books (execute_approved_plan python powers (request true) paper).1 ≡ books paper
refused-books_example =
    refused-books python powers (request true) paper kill_switch_active refused_on_stop
