-- ===== src/Tests/Autonomous.antt =====
-- The loop at concrete cycles.
use crypto_trading_mcp.Prelude.{◌≡◌, refl, true, false, none, some, [], ◌∷◌}
use crypto_trading_mcp.Errors.{ok, err, value_error}
use crypto_trading_mcp.Float.{maximum}
use crypto_trading_mcp.Float.Ticks.{Ticks, ticks_float}
use crypto_trading_mcp.Autonomous.Loop.{
  Python, stored, raised, CycleInput, AutonomousPaperLoop, run_once, key_of, make_idempotency_key,
  closed, move, analysed, guarded, proposed, plan_of, concluded,
}
use crypto_trading_mcp.Autonomous.Loop.Total.{IsOutcome, run_once_total}
use crypto_trading_mcp.Autonomous.Loop.Once.{executes, run_all, executed_once}
use crypto_trading_mcp.Tests.PaperTrading.{python, powers, units, paper}
use crypto_trading_mcp.Machine.{contains}
use crypto_trading_mcp.Autonomous.States.{cycle_transitions, CycleState-discrete}
use crypto_trading_mcp.PaperTrading.Engine.{
  start, check_stop_file, status, refresh, resolve_conflict,
}
use crypto_trading_mcp.PaperTrading.Execution.{
  execute_approved_plan, first_refusal, conflict_checked, compliance_checked, compliance_of,
  correlation_of, risk_checked, risk_reasons, counted, placed, asset_of, settled_plan, booked_plan,
  log_decision,
}
use crypto_trading_mcp.Exchange.Paper.State.{new, set_price, discard, asset_class_of}
use crypto_trading_mcp.Dict.{get}
use crypto_trading_mcp.Portfolio.Manager.{snapshot, open_position, settle, book}
use crypto_trading_mcp.Guarded.{fired}
use crypto_trading_mcp.Risk.Engine.{guards, okf_guards, memory_guards}
use crypto_trading_mcp.Risk.Guards.{
  first_guards, stop_guards, bad_stop, reward_guards, low_reward, limit_guards, daily_loss_hit,
}
use crypto_trading_mcp.PaperTrading.Plan.{to_proposal}
use crypto_trading_mcp.Risk.Config.{pair_allowed, merge_effective_limits}
use crypto_trading_mcp.Text.{upper, lower}
use crypto_trading_mcp.Exchange.Paper.Orders.{
  create_order, received, screened, priced, submit, routed,
}
use crypto_trading_mcp.Exchange.Ids.{ensure_order_id}
use crypto_trading_mcp.Exchange.Models.{OrderStatus-discrete, order_transitions}
use crypto_trading_mcp.Exchange.Paper.Fills.{fill_market, settled, quote, recorded, noted}
use crypto_trading_mcp.Exchange.Costs.{apply, slippage_bps, calculate, rate_for}
use crypto_trading_mcp.Autonomous.States
use crypto_trading_mcp.Autonomous.Loop
use crypto_trading_mcp.Compliance
use crypto_trading_mcp.Machine
use crypto_trading_mcp.Exchange.Paper.Fills
use crypto_trading_mcp.Portfolio.Manager
use crypto_trading_mcp.Exchange.Models

abbrev texts : Python
texts = record { digest = λ s. s; sorted = λ xs. xs }

abbrev idle : AutonomousPaperLoop Ticks
idle = record {
  config = record {
    symbols = "BTC/USD" ∷ [];
    timeframe = "1h";
    strategy_id = "momentum";
    live_trading_enabled = false;
    duplicate_cycle_protection = true;
    persist_state = true;
  };
  paper = record paper { running = false };
  cycles_completed = 0;
  last_cycle = none;
  seen_idempotency = [];
  saved = none;
}

abbrev morning : CycleInput Ticks
morning = record {
  symbol = none;
  price = none;
  cycle_id = "CYC-1";
  run_id = "RUN-1";
  minute = "202611250900";
  now = "09:00";
  stop_at_start = false;
  stop_at_plan = false;
  market = ok (record { allows_new_trade = true; last = some (units 50) });
  learning = ok tt;
  saves = stored;
  saves_again = stored;
}

-- The same minute, with another price and other identifiers.
abbrev again : CycleInput Ticks
again = record morning { cycle_id = "CYC-2"; run_id = "RUN-2"; price = some (units 51) }

-- A cycle whose market cannot be had.
abbrev outage : CycleInput Ticks
outage = record morning { market = err value_error }

-- The state cannot be stored at first.
abbrev locked : CycleInput Ticks
locked = record morning { saves = raised value_error none }

run_once_total_example : IsOutcome locked idle (run_once texts python powers locked idle)
run_once_total_example = run_once_total texts python powers locked idle refl

first_executes : executes (run_once texts python powers morning idle).0 ≡ true
unfolding run_once closed Loop.cycle move States.transition Machine.transition contains
    cycle_transitions CycleState-discrete analysed guarded proposed start check_stop_file
    execute_approved_plan first_refusal status refresh new plan_of conflict_checked resolve_conflict
    get snapshot compliance_checked compliance_of Compliance.evaluate fired correlation_of
    risk_checked risk_reasons counted crypto_trading_mcp.Risk.Engine.evaluate guards first_guards
    to_proposal pair_allowed merge_effective_limits upper stop_guards bad_stop reward_guards
    low_reward maximum limit_guards concluded key_of placed asset_of settled_plan booked_plan
    log_decision daily_loss_hit okf_guards memory_guards create_order received ensure_order_id
    screened set_price priced discard submit Models.transition OrderStatus-discrete
    order_transitions routed fill_market settled Fills.booked open_position quote apply
    asset_class_of slippage_bps settle calculate rate_for lower book Manager.booked recorded noted
    Loop.saved_or_excepted Loop.finished Loop.persist_state
first_executes = refl

executed_once_example :
    let later =
      run_all texts python powers (run_once texts python powers morning idle).1 (outage ∷ []) in
    let (result, after) = run_once texts python powers again later in
    (executes result ≡ false) × (after.paper ≡ later.paper)
unfolding key_of
executed_once_example =
    executed_once texts python powers morning again idle (outage ∷ []) first_executes refl
