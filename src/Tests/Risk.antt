-- ===== src/Tests/Risk.antt =====
-- The risk engine at a concrete proposal.
use crypto_trading_mcp.Prelude.{
  ◌≡◌, refl, ◌↔◌, ℕ, true, false, not, none, some, List, [], ◌∷◌, all, non_empty, if◌then◌else◌,
}
use crypto_trading_mcp.Float.{nought}
use crypto_trading_mcp.Float.Ticks.{Ticks, ticks_float, Ticks-IsOrdered}
use crypto_trading_mcp.Risk.Models.{GlobalRiskLimits, TradeProposal, PortfolioRiskSnapshot, risk_ok}
use crypto_trading_mcp.Risk.Config.{
  KillSwitch, StrategyRisk, OkfConstraints, merge_effective_limits,
}
use crypto_trading_mcp.Risk.Config.Limits.{
  Call, activation, deactivation, drive, drive_active, IsWithin, IsNumeric,
  merge_effective_limits-IsWithin,
}
use crypto_trading_mcp.Risk.Engine.{RiskEngine, Context, evaluate}
use crypto_trading_mcp.Risk.Engine.Approval.{
  is_risk_ok, limits_of, IsCleared, approved_iff, reason_codes_lem,
}

abbrev cents : ℕ → Ticks
cents n = ticks_float.dec n 2

abbrev active : KillSwitch
active = record { active = true; reason = some "drawdown" }

abbrev calls : List Call
calls = deactivation false ∷ activation "operator" ∷ deactivation false ∷ []

drive_active_example : (drive active calls).active ≡ true
drive_active_example = drive_active active calls refl refl

abbrev limits : GlobalRiskLimits Ticks
limits = record {
  max_position_pct = cents 20;
  max_trade_pct = cents 10;
  max_portfolio_exposure_pct = cents 80;
  max_daily_loss_pct = cents 5;
  max_drawdown_pct = cents 15;
  max_trades_per_day = 10;
  max_slippage_pct = cents 1;
  max_leverage = cents 100;
  require_stop_loss = true;
  min_liquidity_usd = cents 100_000;
  min_confidence = cents 55;
  min_risk_reward = cents 150;
  kelly_fraction = cents 25;
  max_consecutive_api_failures = 3;
  allowed_pairs = "BTC/USD" ∷ [];
}

abbrev strategy : StrategyRisk Ticks
strategy = record {
  risk_per_trade_percent = cents 100;
  max_daily_loss_percent = cents 300;
  max_trades_per_day = 20;
  cooldown_bars_between_trades = 2;
  min_risk_reward_ratio = cents 200;
}

-- Guidelines with a drawdown that is not a number and a looser cap on trades.
abbrev guidelines : OkfConstraints Ticks
guidelines = record {
  max_risk_per_trade_pct = some (cents 2);
  max_daily_loss_pct = none;
  max_drawdown_pct = some none;
  max_trades_per_day = some 50;
  kelly_base_fraction = none;
  cooldown_bars = none;
  correlation_enabled = none;
  risk_on_assets = [];
  correlated_long_blockers = [];
  low_turnover_enabled = some false;
  forbidden_styles = [];
}

abbrev limits-IsNumeric : IsNumeric limits
limits-IsNumeric = record {
  trade = refl;
  daily = refl;
  drawdown = refl;
  kelly = refl;
  reward = refl;
}

merge_effective_limits-IsWithin_example :
    IsWithin (merge_effective_limits limits (some strategy) (some guidelines)) limits
merge_effective_limits-IsWithin_example =
    merge_effective_limits-IsWithin Ticks-IsOrdered limits (some strategy) (some guidelines)
      limits-IsNumeric

abbrev engine : RiskEngine Ticks
engine = record {
  limits = limits;
  kill_switch = record { active = false; reason = none };
  okf_resolved = some guidelines;
}

abbrev proposal : TradeProposal Ticks
proposal = record {
  symbol = "BTC/USD";
  side = "LONG";
  quantity = cents 10;
  notional = cents 1_000;
  entry_price = cents 10_000;
  stop_loss = some (cents 9_000);
  take_profit = some (cents 13_000);
  estimated_slippage_pct = nought;
  leverage = cents 100;
  confidence = cents 80;
  model_ids = "model" ∷ [];
  liquidity_usd = none;
  market_data_stale = false;
  bars_since_last_trade = none;
}

abbrev portfolio : PortfolioRiskSnapshot Ticks
portfolio = record {
  equity = cents 100_000;
  available_cash = cents 100_000;
  positions_exposure = nought;
  daily_pnl = nought;
  drawdown_pct = nought;
  trades_today = 0;
  kill_switch_active = false;
  trading_halted = false;
}

abbrev context : Context Ticks
context = record {
  open_positions = none;
  correlation_data_available = true;
  is_new_entry = true;
  is_position_modification = false;
  strategy_style = none;
  memory_gate_result = none;
  okf_context = none;
}

approved_iff_example :
    ((evaluate engine proposal portfolio (some strategy) context).approved ≡ true)
    ↔ IsCleared engine proposal portfolio
        (some strategy)
        context
        (limits_of engine (some strategy) context)
approved_iff_example = approved_iff engine proposal portfolio (some strategy) context

reason_codes_lem_example :
    let d = evaluate engine proposal portfolio (some strategy) context in
    if d.approved
    then d.reason_codes ≡ risk_ok ∷ []
    else (non_empty d.reason_codes ≡ true) × (all (λ r. not (is_risk_ok r)) d.reason_codes ≡ true)
reason_codes_lem_example = reason_codes_lem engine proposal portfolio (some strategy) context
