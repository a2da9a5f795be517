-- ===== src/Risk/Config/Limits.antt =====
-- The merged limits are the strictest, and only an operator clears the kill switch.
use crypto_trading_mcp.Prelude.{
  ◌≤◌, ◌≡◌, refl, Bool, true, false, String, Option, none, some, List, [], ◌∷◌, arith,
  if◌then◌else◌,
}
use crypto_trading_mcp.Float.{Float, ◌<=◌, minimum}
use crypto_trading_mcp.Float.Laws.{IsOrdered, minimum-le_left, le-maximum_left}
use crypto_trading_mcp.Risk.Models.{GlobalRiskLimits}
use crypto_trading_mcp.Risk.Config.{
  KillSwitch, activate, deactivate, StrategyRisk, OkfConstraints, EffectiveLimits, strategy_limits,
  apply_okf, merge_effective_limits,
}

-- A call that an agent or an operator makes to a kill switch.
pub data Call : Type 0 where
  activation : String → Call
  deactivation : Bool → Call

abbrev pub is_authorized : Call → Bool
is_authorized (activation reason) = false
is_authorized (deactivation operator) = operator

unfoldable pub drive : KillSwitch → List Call → KillSwitch
drive k [] = k
drive k (activation reason ∷ cs) = drive (activate reason k) cs
drive k (deactivation operator ∷ cs) = drive (deactivate operator k).1 cs

abbrev pub none_authorized : List Call → Bool
none_authorized [] = true
none_authorized (c ∷ cs) = if is_authorized c then false else none_authorized cs

-- An active kill switch stays active through any calls, unless an authorized operator clears it.
pub drive_active :
    (k : KillSwitch) (cs : List Call)
    → k.active ≡ true
    → none_authorized cs ≡ true
    → (drive k cs).active ≡ true
unfolding drive activate deactivate
drive_active k [] h n = h
drive_active k (activation reason ∷ cs) h n = drive_active (activate reason k) cs refl n
drive_active k (deactivation true ∷ cs) h n = cc
drive_active k (deactivation false ∷ cs) h n = drive_active k cs h n

module _ {W : Type 0} ⦃f : Float W⦄ where
  -- The merged limits are at least as strict as the global ones: stricter or equal where a strategy
  -- or the guidelines can set them, and equal elsewhere.
  pub record IsWithin (l : EffectiveLimits W) (g : GlobalRiskLimits W) : Type 0 where
    pub risk : (l.risk_per_trade_pct <= g.max_trade_pct) ≡ true
    pub daily : (l.max_daily_loss_pct <= g.max_daily_loss_pct) ≡ true
    pub drawdown : (l.max_drawdown_pct <= g.max_drawdown_pct) ≡ true
    pub trades : l.max_trades_per_day ≤ g.max_trades_per_day
    pub kelly : (l.kelly_fraction <= g.kelly_fraction) ≡ true
    pub reward : (g.min_risk_reward <= l.min_risk_reward) ≡ true
    pub position : l.max_position_pct ≡ g.max_position_pct
    pub trade : l.max_trade_pct ≡ g.max_trade_pct
    pub exposure : l.max_portfolio_exposure_pct ≡ g.max_portfolio_exposure_pct
    pub slippage : l.max_slippage_pct ≡ g.max_slippage_pct
    pub leverage : l.max_leverage ≡ g.max_leverage
    pub stops : l.require_stop_loss ≡ g.require_stop_loss
    pub liquidity : l.min_liquidity_usd ≡ g.min_liquidity_usd
    pub confidence : l.min_confidence ≡ g.min_confidence
    pub failures : l.max_consecutive_api_failures ≡ g.max_consecutive_api_failures
    pub pairs : l.allowed_pairs ≡ g.allowed_pairs

  -- The global limits are numbers.
  pub record IsNumeric (g : GlobalRiskLimits W) : Type 0 where
    pub trade : (g.max_trade_pct <= g.max_trade_pct) ≡ true
    pub daily : (g.max_daily_loss_pct <= g.max_daily_loss_pct) ≡ true
    pub drawdown : (g.max_drawdown_pct <= g.max_drawdown_pct) ≡ true
    pub kelly : (g.kelly_fraction <= g.kelly_fraction) ≡ true
    pub reward : (g.min_risk_reward <= g.min_risk_reward) ≡ true

  module _ (o : IsOrdered W) where
    strategy_limits-IsWithin :
        (g : GlobalRiskLimits W) (s : Option (StrategyRisk W))
        → IsNumeric g
        → IsWithin (strategy_limits g s) g
    unfolding strategy_limits
    strategy_limits-IsWithin g none n = record {
      risk = n.trade;
      daily = n.daily;
      drawdown = n.drawdown;
      trades = omega arith;
      kelly = n.kelly;
      reward = le-maximum_left o _ _ n.reward;
      position = refl;
      trade = refl;
      exposure = refl;
      slippage = refl;
      leverage = refl;
      stops = refl;
      liquidity = refl;
      confidence = refl;
      failures = refl;
      pairs = refl;
    }
    strategy_limits-IsWithin g (some s) n = record {
      risk = minimum-le_left o _ _ n.trade;
      daily = minimum-le_left o _ _ n.daily;
      drawdown = n.drawdown;
      trades = omega arith;
      kelly = n.kelly;
      reward = le-maximum_left o _ _ n.reward;
      position = refl;
      trade = refl;
      exposure = refl;
      slippage = refl;
      leverage = refl;
      stops = refl;
      liquidity = refl;
      confidence = refl;
      failures = refl;
      pairs = refl;
    }

    -- A minimum with anything stays below what its first argument is below.
    minimum-le_trans : (x y z : W) → (x <= z) ≡ true → (minimum x y <= z) ≡ true
    minimum-le_trans x y z h =
        o.le_trans (minimum x y) x z (minimum-le_left o x y (o.refl_of_le x z h).0) h

    apply_okf-IsWithin :
        (l : EffectiveLimits W) (k : OkfConstraints W) (g : GlobalRiskLimits W)
        → IsWithin l g
        → IsWithin (apply_okf l k) g
    unfolding apply_okf
    apply_okf-IsWithin l k g w = record {
      risk = minimum-le_trans _ _ _ w.risk;
      daily = minimum-le_trans _ _ _ w.daily;
      drawdown = minimum-le_trans _ _ _ w.drawdown;
      trades = omega arith;
      kelly = minimum-le_trans _ _ _ w.kelly;
      reward = w.reward;
      position = w.position;
      trade = w.trade;
      exposure = w.exposure;
      slippage = w.slippage;
      leverage = w.leverage;
      stops = w.stops;
      liquidity = w.liquidity;
      confidence = w.confidence;
      failures = w.failures;
      pairs = w.pairs;
    }

    -- Whatever a strategy and the guidelines say, NaN included, each merged limit that the global ones
    -- have is at least as strict as there, if those are numbers; the limits that neither a strategy nor
    -- the guidelines set are the global ones.
    pub merge_effective_limits-IsWithin :
        (g : GlobalRiskLimits W) (s : Option (StrategyRisk W)) (k : Option (OkfConstraints W))
        → IsNumeric g
        → IsWithin (merge_effective_limits g s k) g
    unfolding merge_effective_limits
    merge_effective_limits-IsWithin g s none n = strategy_limits-IsWithin g s n
    merge_effective_limits-IsWithin g s (some k) n =
        apply_okf-IsWithin (strategy_limits g s) k g (strategy_limits-IsWithin g s n)
