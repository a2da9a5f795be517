-- ===== src/Risk/Guards.antt =====
-- The guards of `RiskEngine.evaluate` (crypto_trading_mcp/risk/engine.py) on a proposal, the
-- portfolio and the limits. A chain of `if c: reasons.append(code)` is a list of such guards, and
-- `fired` the codes that they append, in their order. The divisions stand under the source's own
-- guards, which exclude a zero divisor.
use crypto_trading_mcp.Prelude.{
  String, Bool, false, ◌||◌, ◌&&◌, not, none, some, [], ◌∷◌, one_of, non_empty, leb, if◌then◌else◌,
}
use crypto_trading_mcp.Guarded.{Guarded}
use crypto_trading_mcp.Text.{upper}
use crypto_trading_mcp.Float.{Float, ◌⊕◌, ◌⊖◌, ◌⊗◌, ◌⊘◌, ◌<=◌, ◌<<◌, ◌>=◌, ◌>>◌, nought, minimum}
use crypto_trading_mcp.Okf.Turnover.{in_cooldown}
use crypto_trading_mcp.Risk.Models.{
  RiskReasonCode, TradeProposal, PortfolioRiskSnapshot, position_limit_exceeded,
  trade_size_limit_exceeded, exposure_limit_exceeded, daily_loss_limit, drawdown_limit,
  trade_count_limit, cooldown_active, slippage_limit, leverage_limit, pair_not_allowed,
  stale_market_data, stop_loss_required, invalid_stop, risk_reward_too_low, kill_switch_active,
  insufficient_liquidity, invalid_trade, strategy_data_unavailable, trading_halted,
  insufficient_cash, insufficient_confidence, no_valid_model,
}
use crypto_trading_mcp.Risk.Config.{EffectiveLimits, pair_allowed}

abbrev pub Guards : Type 0
Guards = Guarded RiskReasonCode

abbrev pub is_long : String → Bool
is_long side = one_of (upper side) ("LONG" ∷ "BUY" ∷ [])

abbrev pub is_short : String → Bool
is_short side = one_of (upper side) ("SHORT" ∷ "SELL" ∷ [])

module _ {W : Type 0} ⦃f : Float W⦄ where
  open f use {dec, abs}

  -- The stop is on the wrong side of the entry.
  unfoldable pub bad_stop : TradeProposal W → W → Bool
  bad_stop p stop =
      is_long p.side && (stop >= p.entry_price) || is_short p.side && (stop <= p.entry_price)

  unfoldable pub stop_guards : EffectiveLimits W → TradeProposal W → Guards
  stop_guards l p = elim p.stop_loss [
    | none ↦ (l.require_stop_loss, stop_loss_required) ∷ []
    | some stop ↦ (bad_stop p stop, invalid_stop) ∷ []
  ]

  -- The reward of the target over the risk of the stop is too low.
  unfoldable pub low_reward : EffectiveLimits W → TradeProposal W → W → W → Bool
  low_reward l p stop target =
      let risk_per_unit = abs (p.entry_price ⊖ stop) in
      (risk_per_unit >> nought)
      && (abs (target ⊖ p.entry_price) ⊘ risk_per_unit << l.min_risk_reward)

  unfoldable pub reward_guards : EffectiveLimits W → TradeProposal W → Guards
  reward_guards l p = elim p.stop_loss [
    | none ↦ []
    | some stop ↦ elim p.take_profit [
      | none ↦ []
      | some target ↦ (low_reward l p stop target, risk_reward_too_low) ∷ []
    ]
  ]

  unfoldable pub risk_amount : TradeProposal W → W
  risk_amount p = elim p.stop_loss [
    | none ↦ nought
    | some stop ↦ abs (p.entry_price ⊖ stop) ⊗ p.quantity
  ]

  -- The largest notional that the sizes and the stop allow.
  unfoldable pub max_notional : EffectiveLimits W → TradeProposal W → W → W
  max_notional l p equity =
      let by_size = minimum (equity ⊗ l.max_position_pct) (equity ⊗ l.max_trade_pct) in
      elim p.stop_loss [
        | none ↦ by_size
        | some stop ↦
            let stop_dist = abs (p.entry_price ⊖ stop) in
            if (p.entry_price >> nought) && (stop_dist >> nought)
            then minimum by_size (equity ⊗ l.risk_per_trade_pct ⊘ stop_dist ⊗ p.entry_price)
            else by_size
      ]

  -- `a > b + 1e-9`
  abbrev pub exceeds : W → W → Bool
  exceeds a b = a >> (b ⊕ dec 1 9)

  unfoldable pub daily_loss_hit : EffectiveLimits W → PortfolioRiskSnapshot W → W → Bool
  daily_loss_hit l s equity =
      (equity >> nought)
      && (s.daily_pnl << nought)
      && (abs s.daily_pnl ⊘ equity >= l.max_daily_loss_pct)

  -- The guards up to the liquidity test that depend on the portfolio and the limits.
  unfoldable pub first_guards :
      Bool → EffectiveLimits W → TradeProposal W → PortfolioRiskSnapshot W → Guards
  first_guards killed l p s =
      (killed || s.kill_switch_active, kill_switch_active)
      ∷ (s.trading_halted, trading_halted)
      ∷ (p.market_data_stale, stale_market_data)
      ∷ (not (pair_allowed p.symbol l.allowed_pairs), pair_not_allowed)
      ∷ (
        (p.quantity <= nought) || (p.notional <= nought) || (p.entry_price <= nought),
        invalid_trade,
      )
      ∷ []

  unfoldable pub limit_guards :
      EffectiveLimits W → TradeProposal W → PortfolioRiskSnapshot W → W → Bool → Guards
  limit_guards l p s equity has_strategy =
      (exceeds p.notional (equity ⊗ l.max_position_pct), position_limit_exceeded)
      ∷ (exceeds p.notional (equity ⊗ l.max_trade_pct), trade_size_limit_exceeded)
      ∷ (
        exceeds (s.positions_exposure ⊕ p.notional) (equity ⊗ l.max_portfolio_exposure_pct),
        exposure_limit_exceeded,
      )
      ∷ (daily_loss_hit l s equity, daily_loss_limit)
      ∷ (s.drawdown_pct >= l.max_drawdown_pct, drawdown_limit)
      ∷ (leb l.max_trades_per_day s.trades_today, trade_count_limit)
      ∷ (in_cooldown p.bars_since_last_trade l.cooldown_bars, cooldown_active)
      ∷ (p.estimated_slippage_pct >> l.max_slippage_pct, slippage_limit)
      ∷ (p.leverage >> l.max_leverage, leverage_limit)
      ∷ (
        elim p.liquidity_usd [ none ↦ false | some u ↦ u << l.min_liquidity_usd ],
        insufficient_liquidity,
      )
      ∷ (exceeds p.notional s.available_cash && is_long p.side, insufficient_cash)
      ∷ (p.confidence << l.min_confidence, insufficient_confidence)
      ∷ (not (non_empty p.model_ids), no_valid_model)
      ∷ (not has_strategy, strategy_data_unavailable)
      ∷ []
