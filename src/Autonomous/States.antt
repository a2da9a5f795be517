-- ===== src/Autonomous/States.antt =====
-- src/crypto_trading_mcp/autonomous/states.py: the states of one trading cycle and the table of
-- the transitions that `CycleStateMachine.transition` accepts.
use crypto_trading_mcp.Prelude.{List, [], ◌∷◌}
use crypto_trading_mcp.Errors.{Result}
use crypto_trading_mcp.Machine

pub data CycleState : Type 0 where
  cycle_started market_data_ready analysis_running consensus_ready : CycleState
  trade_proposed risk_validating risk_approved risk_rejected : CycleState
  order_submitted order_partially_filled order_filled order_cancelled order_expired : CycleState
  position_updated cycle_completed cycle_failed : CycleState

unfoldable pub CycleState-discrete : Discrete CycleState
CycleState-discrete = hlevel

-- CYCLE_TRANSITIONS
unfoldable pub cycle_transitions : CycleState → List CycleState
cycle_transitions cycle_started = market_data_ready ∷ cycle_failed ∷ []
cycle_transitions market_data_ready = analysis_running ∷ cycle_failed ∷ cycle_completed ∷ []
cycle_transitions analysis_running = consensus_ready ∷ cycle_failed ∷ cycle_completed ∷ []
cycle_transitions consensus_ready = trade_proposed ∷ cycle_completed ∷ cycle_failed ∷ []
cycle_transitions trade_proposed = risk_validating ∷ cycle_completed ∷ cycle_failed ∷ []
cycle_transitions risk_validating = risk_approved ∷ risk_rejected ∷ cycle_failed ∷ []
cycle_transitions risk_approved = order_submitted ∷ cycle_failed ∷ []
cycle_transitions risk_rejected = cycle_completed ∷ []
cycle_transitions order_submitted =
    order_partially_filled ∷ order_filled ∷ order_cancelled ∷ order_expired ∷ cycle_failed ∷ []
cycle_transitions order_partially_filled = order_filled ∷ order_cancelled ∷ position_updated ∷ []
cycle_transitions order_filled = position_updated ∷ cycle_completed ∷ []
cycle_transitions order_cancelled = cycle_completed ∷ []
cycle_transitions order_expired = cycle_completed ∷ []
cycle_transitions position_updated = cycle_completed ∷ []
cycle_transitions cycle_completed = []
cycle_transitions cycle_failed = []

-- CycleStateMachine.transition
unfoldable pub transition : CycleState → CycleState → Result CycleState
transition = Machine.transition CycleState-discrete cycle_transitions

-- The calls of `transition` that a cycle makes, up to the first exception.
unfoldable pub run : CycleState → List CycleState → Result CycleState
run = Machine.run CycleState-discrete cycle_transitions
