-- ===== src/Tests/Machines.antt =====
-- The state machines at concrete sequences of transitions.
use crypto_trading_mcp.Prelude.{◌≡◌, refl, true, List, [], ◌∷◌, length, ◌≤◌}
use crypto_trading_mcp.Errors.{ok}
use crypto_trading_mcp.Machine
use crypto_trading_mcp.Machine.{contains}
use crypto_trading_mcp.Autonomous.States.{
  CycleState, cycle_started, market_data_ready, analysis_running, consensus_ready, trade_proposed,
  risk_validating, risk_approved, order_submitted, order_filled, CycleState-discrete,
  cycle_transitions, run,
}
use crypto_trading_mcp.Autonomous.Safety.{has_order_needs_approval, run_bounded}
use crypto_trading_mcp.Orchestration.StateMachine.{
  TradingState, idle, scanning, analyzing, debating, risk_review, trade_planned,
  TradingState-discrete, analysis_transitions, run_analysis, trade_planned_needs_review,
}
use crypto_trading_mcp.Sandbox.Lifecycle.{
  OrderLifecycleState, create_intent, risk_check, idempotency_check, submit, ack,
  OrderLifecycleState-discrete, lifecycle_transitions, new, transition, drive,
}
use crypto_trading_mcp.Sandbox.Lifecycle.Safety.{is_sent, sent_was_checked}

-- The steps of a cycle whose order is filled.
abbrev filled_cycle : List CycleState
filled_cycle =
    market_data_ready ∷ analysis_running ∷ consensus_ready ∷ trade_proposed ∷ risk_validating
    ∷ risk_approved ∷ order_submitted ∷ order_filled ∷ []

filled_cycle_runs : run cycle_started filled_cycle ≡ ok order_filled
unfolding run Machine.run Machine.transition contains cycle_transitions CycleState-discrete
filled_cycle_runs = refl

has_order_needs_approval_example : contains CycleState-discrete risk_approved filled_cycle ≡ true
has_order_needs_approval_example = has_order_needs_approval filled_cycle filled_cycle_runs refl

run_bounded_example : length filled_cycle ≤ 11
run_bounded_example = run_bounded filled_cycle filled_cycle_runs

-- The steps of an analysis that plans a trade.
abbrev planned : List TradingState
planned = scanning ∷ analyzing ∷ debating ∷ risk_review ∷ trade_planned ∷ []

planned_runs : run_analysis idle planned ≡ ok trade_planned
unfolding run_analysis Machine.run Machine.transition contains analysis_transitions
    TradingState-discrete
planned_runs = refl

trade_planned_needs_review_example : contains TradingState-discrete risk_review planned ≡ true
trade_planned_needs_review_example = trade_planned_needs_review planned planned_runs

-- A submission; the second request of it is refused.
abbrev submission : List OrderLifecycleState
submission = risk_check ∷ idempotency_check ∷ submit ∷ submit ∷ ack ∷ []

submission_sent : is_sent (drive (new create_intent) submission).state ≡ true
unfolding drive transition contains lifecycle_transitions OrderLifecycleState-discrete
submission_sent = refl

sent_was_checked_example :
    let m = drive (new create_intent) submission in
    (contains OrderLifecycleState-discrete risk_check m.history ≡ true)
    × (contains OrderLifecycleState-discrete idempotency_check m.history ≡ true)
sent_was_checked_example = sent_was_checked submission submission_sent
