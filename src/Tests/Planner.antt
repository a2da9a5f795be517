-- ===== src/Tests/Planner.antt =====
-- The planner at concrete input.
use crypto_trading_mcp.Prelude.{◌≡◌, refl, true, false, none, some, [], ◌∷◌, non_empty, ◌==◌}
use crypto_trading_mcp.Text.{upper}
use crypto_trading_mcp.Errors.{ok}
use crypto_trading_mcp.Float.{◌⊖◌, ◌<=◌, nought, minimum}
use crypto_trading_mcp.Float.Ticks.{Ticks, ticks_float, Ticks-IsOrdered}
use crypto_trading_mcp.PaperTrading.Plan.{TradePlan}
use crypto_trading_mcp.PaperTrading.Planner.{
  PlanInput, sized, plan, risk_quantity, capped_quantity, decided, stop_of,
}
use crypto_trading_mcp.PaperTrading.Planner.Sizes.{
  IsStop, bought_by_risk, bought_by_caps, proposed_sizes,
}
use crypto_trading_mcp.Tests.PaperTrading.{units, cents, limits}
use crypto_trading_mcp.PaperTrading.Planner

abbrev input : PlanInput Ticks
input = record {
  strategy_id = "momentum";
  strategy_version = "1.0.0";
  risk_management = record {
    risk_per_trade_percent = units 1;
    max_daily_loss_percent = units 3;
    max_trades_per_day = 20;
    cooldown_bars_between_trades = 2;
    min_risk_reward_ratio = cents 150;
  };
  atr_fallback_multiplier = cents 150;
  target_risk_reward_ratio = units 2;
  decision = "Short";
  confidence = cents 80;
  confirmed_ids = "model" ∷ [];
  last_close = some (units 100);
  atr_14 = some (units 2);
  stop_long = none;
  stop_short = none;
  move_be_at_1r = false;
  partial_tp_pct = none;
  equity = units 1_000;
  fee_rate = cents 1;
  slippage_pct = nought;
}

-- Sold at 100, with the stop at 103.
abbrev trade : TradePlan Ticks
trade = sized limits input false (units 100) (units 103)

planned_trade : plan limits input ≡ ok trade
unfolding plan upper decided Planner.planned stop_of
planned_trade = refl

numbers :
    ((bought_by_risk limits input (units 100) (units 103)
        <= bought_by_risk limits input (units 100) (units 103))
      ≡ true)
    × ((bought_by_caps limits input (units 100) <= bought_by_caps limits input (units 100)) ≡ true)
unfolding minimum
numbers = (refl, refl)

proposed_sizes_example :
    (stop : Ticks) × (trade.stop_loss ≡ some stop)
    × IsStop input (units 100) stop trade.side
    × (non_empty input.confirmed_ids ≡ true)
    × ((upper input.decision == trade.side) ≡ true)
    × ((ticks_float.abs (units 100 ⊖ stop) <= nought) ≡ false)
    × ((trade.quantity <= bought_by_risk limits input (units 100) stop) ≡ true)
    × ((trade.quantity <= bought_by_caps limits input (units 100)) ≡ true)
unfolding sized
proposed_sizes_example =
    proposed_sizes Ticks-IsOrdered limits input (units 100) refl planned_trade refl numbers.0
      numbers.1
