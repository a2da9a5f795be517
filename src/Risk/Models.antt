-- ===== src/Risk/Models.antt =====
-- crypto_trading_mcp/risk/models.py: reason codes, limits, proposal, snapshot and decision. Counts of
-- trades and bars are natural numbers.
use crypto_trading_mcp.Prelude.{ℕ, String, Bool, Option, List}

pub data RiskReasonCode : Type 0 where
  risk_ok position_limit_exceeded trade_size_limit_exceeded exposure_limit_exceeded : RiskReasonCode
  daily_loss_limit drawdown_limit trade_count_limit cooldown_active slippage_limit : RiskReasonCode
  leverage_limit pair_not_allowed stale_market_data stop_loss_required invalid_stop : RiskReasonCode
  risk_reward_too_low kill_switch_active insufficient_liquidity invalid_trade : RiskReasonCode
  strategy_disabled strategy_data_unavailable trading_halted insufficient_cash : RiskReasonCode
  insufficient_confidence no_valid_model correlation_filter_block : RiskReasonCode
  correlation_data_unavailable failure_memory_match_block failure_memory_unavailable :
      RiskReasonCode
  low_turnover_block okf_constraint_block : RiskReasonCode

pub record GlobalRiskLimits (W : Type 0) : Type 0 where
  pub max_position_pct : W
  pub max_trade_pct : W
  pub max_portfolio_exposure_pct : W
  pub max_daily_loss_pct : W
  pub max_drawdown_pct : W
  pub max_trades_per_day : ℕ
  pub max_slippage_pct : W
  pub max_leverage : W
  pub require_stop_loss : Bool
  pub min_liquidity_usd : W
  pub min_confidence : W
  pub min_risk_reward : W
  pub kelly_fraction : W
  pub max_consecutive_api_failures : ℕ
  pub allowed_pairs : List String

pub record TradeProposal (W : Type 0) : Type 0 where
  pub symbol : String
  pub side : String
  pub quantity : W
  pub notional : W
  pub entry_price : W
  pub stop_loss : Option W
  pub take_profit : Option W
  pub estimated_slippage_pct : W
  pub leverage : W
  pub confidence : W
  pub model_ids : List String
  pub liquidity_usd : Option W
  pub market_data_stale : Bool
  pub bars_since_last_trade : Option ℕ

pub record PortfolioRiskSnapshot (W : Type 0) : Type 0 where
  pub equity : W
  pub available_cash : W
  pub positions_exposure : W
  pub daily_pnl : W
  pub drawdown_pct : W
  pub trades_today : ℕ
  pub kill_switch_active : Bool
  pub trading_halted : Bool
