-- ===== src/Risk/Engine.antt =====
-- crypto_trading_mcp/risk/engine.py: `RiskEngine.evaluate`, with the gates of the guidelines called as
-- in the source.
pub mod Approval
use crypto_trading_mcp.Prelude.{
  ℕ, String, Bool, true, false, ◌||◌, ◌&&◌, not, Option, none, some, List, [], ◌∷◌, ◌++◌, ◌==◌,
  one_of, non_empty, is_some, get_or, ltb, leb, length, if◌then◌else◌,
}
use text.Mathlib.Text.{find?}
use crypto_trading_mcp.Guarded.{fired}
use crypto_trading_mcp.Text.{upper}
use crypto_trading_mcp.Dict.{Dict}
use crypto_trading_mcp.Float.{
  Float, ◌⊕◌, ◌⊖◌, ◌⊗◌, ◌⊘◌, ◌<=◌, ◌<<◌, ◌>=◌, ◌>>◌, nought, minimum, maximum,
}
use crypto_trading_mcp.Okf.Turnover
use crypto_trading_mcp.Okf.Turnover.{TurnoverResult, turnover_allowed, in_cooldown}
use crypto_trading_mcp.Okf.Correlation
use crypto_trading_mcp.Okf.Correlation.{CorrelationResult, correlation_allowed}
use crypto_trading_mcp.Risk.Models.{
  RiskReasonCode, GlobalRiskLimits, TradeProposal, PortfolioRiskSnapshot, risk_ok,
  position_limit_exceeded, trade_size_limit_exceeded, exposure_limit_exceeded, daily_loss_limit,
  drawdown_limit, trade_count_limit, cooldown_active, slippage_limit, leverage_limit,
  pair_not_allowed, stale_market_data, stop_loss_required, invalid_stop, risk_reward_too_low,
  kill_switch_active, insufficient_liquidity, invalid_trade, strategy_data_unavailable,
  trading_halted, insufficient_cash, insufficient_confidence, no_valid_model,
  correlation_filter_block, correlation_data_unavailable, failure_memory_match_block,
  failure_memory_unavailable, low_turnover_block,
}
use crypto_trading_mcp.Risk.Config.{
  KillSwitch, StrategyRisk, OkfConstraints, EffectiveLimits, merge_effective_limits, pair_allowed,
}
use crypto_trading_mcp.Risk.Guards.{
  Guards, first_guards, stop_guards, reward_guards, limit_guards, max_notional, risk_amount,
}

pub record RiskEngine (W : Type 0) : Type 0 where
  pub limits : GlobalRiskLimits W
  pub kill_switch : KillSwitch
  pub okf_resolved : Option (OkfConstraints W)

-- The result of the memory gate, which the caller passes in.
pub record MemoryGateResult : Type 0 where
  pub allowed : Bool
  pub reason_code : String

-- The keyword arguments of `evaluate`.
pub record Context (W : Type 0) : Type 0 where
  pub open_positions : Option (Dict W)
  pub correlation_data_available : Bool
  pub is_new_entry : Bool
  pub is_position_modification : Bool
  pub strategy_style : Option String
  pub memory_gate_result : Option MemoryGateResult
  -- `some none` is an empty dict, which hides the constraints that the engine has resolved.
  pub okf_context : Option (Option (OkfConstraints W))

pub data Warning : Type 0 where
  low_confidence : Warning
  correlation : CorrelationResult → Warning
  turnover : TurnoverResult → Warning
  okf_conflicts : ℕ → Warning
  memory : String → Warning

pub record RiskDecision (W : Type 0) : Type 0 where
  pub approved : Bool
  pub reason_codes : List RiskReasonCode
  pub warnings : List Warning
  pub max_allowed_quantity : W
  pub max_allowed_notional : W
  pub risk_per_trade : W
  pub portfolio_exposure : W
  pub daily_loss : W
  pub drawdown : W
  pub effective_limits : EffectiveLimits W

-- Both codes of a result of the gate; at most one of them fires.
pub correlation_guards : Option CorrelationResult → Guards
correlation_guards none = []
correlation_guards (some Correlation.correlation_data_unavailable) =
    (true, correlation_data_unavailable) ∷ []
correlation_guards (some r) = (not (correlation_allowed r), correlation_filter_block) ∷ []

is_unavailable : String → Bool
is_unavailable code = is_some (find? code "UNAVAILABLE")

unfoldable pub memory_guards : Option MemoryGateResult → Guards
unfolding is_unavailable
memory_guards none = []
memory_guards (some r) =
    (not r.allowed && is_unavailable r.reason_code, failure_memory_unavailable)
    ∷ (not r.allowed && not (is_unavailable r.reason_code), failure_memory_match_block)
    ∷ []

correlation_warnings : Option CorrelationResult → List Warning
correlation_warnings none = []
correlation_warnings (some r) = if correlation_allowed r then [] else correlation r ∷ []

memory_warnings : Option MemoryGateResult → List Warning
memory_warnings none = []
memory_warnings (some r) = if r.allowed then [] else memory r.reason_code ∷ []

module _ {W : Type 0} ⦃f : Float W⦄ where
  open f use {abs}

  -- The correlation gate, where the source calls it.
  correlation_result : OkfConstraints W → TradeProposal W → Context W → Option CorrelationResult
  correlation_result k p c =
      if is_some c.open_positions || not c.correlation_data_available
      then some (
          Correlation.evaluate
            (Correlation.new (get_or k.correlation_enabled true) k.risk_on_assets
              k.correlated_long_blockers)
            p.symbol p.side c.open_positions c.correlation_data_available c.is_new_entry
            c.is_position_modification)
      else none

  turnover_result :
      OkfConstraints W → TradeProposal W → PortfolioRiskSnapshot W → Context W → TurnoverResult
  turnover_result k p s c =
      Turnover.evaluate
        (Turnover.new (get_or k.low_turnover_enabled true) (get_or k.max_trades_per_day 8)
          (get_or k.cooldown_bars 5) k.forbidden_styles)
        s.trades_today p.bars_since_last_trade c.strategy_style

  unfoldable pub okf_guards :
      Option (OkfConstraints W) → TradeProposal W → PortfolioRiskSnapshot W → Context W → Guards
  unfolding correlation_result turnover_result
  okf_guards none p s c = []
  okf_guards (some k) p s c =
      correlation_guards (correlation_result k p c)
      ++ (not (turnover_allowed (turnover_result k p s c)), low_turnover_block) ∷ []

  okf_warnings :
      Option (OkfConstraints W)
      → EffectiveLimits W
      → TradeProposal W
      → PortfolioRiskSnapshot W
      → Context W
      → List Warning
  okf_warnings none l p s c = []
  okf_warnings (some k) l p s c =
      let t = turnover_result k p s c in
      correlation_warnings (correlation_result k p c)
      ++ ((if turnover_allowed t then [] else turnover t ∷ [])
          ++ (if non_empty l.okf_conflicts
              then okf_conflicts (length l.okf_conflicts) ∷ []
              else []))

  -- All the guards of `evaluate`, in the order of the source.
  unfoldable pub guards :
      RiskEngine W
      → Option (OkfConstraints W)
      → EffectiveLimits W
      → TradeProposal W
      → PortfolioRiskSnapshot W
      → Bool
      → Context W
      → Guards
  guards e k l p s has_strategy c =
      first_guards e.kill_switch.active l p s
      ++ (stop_guards l p
          ++ (reward_guards l p
              ++ (limit_guards l p s (maximum s.equity nought) has_strategy
                  ++ (okf_guards k p s c ++ memory_guards c.memory_gate_result))))

  -- `okf_context if okf_context is not None else self._okf_resolved`
  pub constraints : RiskEngine W → Context W → Option (OkfConstraints W)
  constraints e c = get_or c.okf_context e.okf_resolved

  -- RiskEngine.evaluate
  unfoldable pub evaluate :
      RiskEngine W
      → TradeProposal W
      → PortfolioRiskSnapshot W
      → Option (StrategyRisk W)
      → Context W
      → RiskDecision W
  unfolding constraints risk_amount max_notional okf_warnings memory_warnings turnover_result
      correlation_result correlation_warnings
  evaluate e p s strategy c =
      let k = constraints e c in
      let l = merge_effective_limits e.limits strategy k in
      let equity = maximum s.equity nought in
      let blocking = fired (guards e k l p s (is_some strategy) c) in
      let notional = max_notional l p equity in
      record {
        approved = not (non_empty blocking);
        reason_codes = if non_empty blocking then blocking else risk_ok ∷ [];
        warnings =
            (if p.confidence << l.min_confidence then low_confidence ∷ [] else [])
            ++ (okf_warnings k l p s c ++ memory_warnings c.memory_gate_result);
        max_allowed_quantity = if p.entry_price >> nought then notional ⊘ p.entry_price else nought;
        max_allowed_notional = notional;
        risk_per_trade = risk_amount p;
        portfolio_exposure = s.positions_exposure ⊕ p.notional;
        daily_loss = abs (minimum s.daily_pnl nought);
        drawdown = s.drawdown_pct;
        effective_limits = l;
      }
