-- ===== src/Autonomous/Safety.antt =====
-- What the table of states.py guarantees of every cycle.
use crypto_trading_mcp.Prelude.{
  ℕ, ◌≤◌, ◌≡◌, refl, Bool, true, false, ◌||◌, List, [], ◌∷◌, arith, ltb, length, all,
}
use crypto_trading_mcp.Errors.{ok}
use crypto_trading_mcp.Machine
use crypto_trading_mcp.Machine.{contains}
use crypto_trading_mcp.Autonomous.States.{
  CycleState, CycleState-discrete, cycle_transitions, run, cycle_started, market_data_ready,
  analysis_running, consensus_ready, trade_proposed, risk_validating, risk_approved, risk_rejected,
  order_submitted, order_partially_filled, order_filled, order_cancelled, order_expired,
  position_updated, cycle_completed, cycle_failed,
}

-- The states in which an order is at the exchange, or has been.
abbrev pub has_order : CycleState → Bool
has_order order_submitted = true
has_order order_partially_filled = true
has_order order_filled = true
has_order order_cancelled = true
has_order order_expired = true
has_order position_updated = true
has_order _ = false

abbrev no_order : CycleState → Bool
no_order order_submitted = false
no_order order_partially_filled = false
no_order order_filled = false
no_order order_cancelled = false
no_order order_expired = false
no_order position_updated = false
no_order risk_approved = false
no_order _ = true

no_order-edges :
    (s : CycleState)
    → no_order s ≡ true
    → all
        (λ t. no_order t || contains CycleState-discrete t (risk_approved ∷ []))
        (cycle_transitions s)
      ≡ true
unfolding contains CycleState-discrete cycle_transitions
no_order-edges cycle_started h = refl
no_order-edges _ h = ground arith

-- An order state is reached from the start of a cycle only by way of RISK_APPROVED.
pub has_order_needs_approval :
    (ts : List CycleState) {u : CycleState}
    → run cycle_started ts ≡ ok u
    → has_order u ≡ true
    → contains CycleState-discrete risk_approved ts ≡ true
unfolding run
has_order_needs_approval ts {u} r h =
    Machine.run_through_gate CycleState-discrete cycle_transitions no_order risk_approved
      no_order-edges cycle_started ts refl r (not_both u h)
  where
    not_both : (v : CycleState) → has_order v ≡ true → no_order v ≡ false
    not_both v k = ground arith

abbrev rank : CycleState → ℕ
rank cycle_started = 0
rank market_data_ready = 1
rank analysis_running = 2
rank consensus_ready = 3
rank trade_proposed = 4
rank risk_validating = 5
rank risk_approved = 6
rank risk_rejected = 6
rank order_submitted = 7
rank order_partially_filled = 8
rank order_filled = 9
rank order_cancelled = 9
rank order_expired = 9
rank position_updated = 10
rank cycle_completed = 11
rank cycle_failed = 11

rank-edges : (s : CycleState) → all (λ t. ltb (rank s) (rank t)) (cycle_transitions s) ≡ true
unfolding cycle_transitions
rank-edges cycle_started = refl
rank-edges _ = refl

rank-le : (s : CycleState) → rank s ≤ 11
rank-le s = ground arith

-- A cycle ends: no run from the start makes more than eleven transitions.
pub run_bounded :
    (ts : List CycleState) {u : CycleState} → run cycle_started ts ≡ ok u → length ts ≤ 11
unfolding run
run_bounded ts {u} r = omega (
  arith,
  Machine.run_rank CycleState-discrete cycle_transitions rank rank-edges cycle_started ts r,
  rank-le u,
)
