-- ===== src/Sandbox/Lifecycle.antt =====
-- crypto_trading_mcp/sandbox/lifecycle.py: the machine of an order at the sandbox venue, with
-- the history that it keeps.
pub mod Safety
use crypto_trading_mcp.Prelude.{List, [], ◌∷◌, ◌++◌, if◌then◌else◌}
use crypto_trading_mcp.Errors.{Result, ok, err, value_error}
use crypto_trading_mcp.Machine.{contains}

pub data OrderLifecycleState : Type 0 where
  create_intent risk_check idempotency_check submit ack open_new : OrderLifecycleState
  partial_fill full_fill position_update cancel close : OrderLifecycleState
  reconciliation failed blocked : OrderLifecycleState

unfoldable pub OrderLifecycleState-discrete : Discrete OrderLifecycleState
OrderLifecycleState-discrete = hlevel

-- _TRANSITIONS
unfoldable pub lifecycle_transitions : OrderLifecycleState → List OrderLifecycleState
lifecycle_transitions create_intent = risk_check ∷ blocked ∷ failed ∷ []
lifecycle_transitions risk_check = idempotency_check ∷ blocked ∷ failed ∷ []
lifecycle_transitions idempotency_check = submit ∷ blocked ∷ failed ∷ []
lifecycle_transitions submit = ack ∷ reconciliation ∷ failed ∷ []
lifecycle_transitions ack = open_new ∷ partial_fill ∷ full_fill ∷ cancel ∷ failed ∷ []
lifecycle_transitions open_new = partial_fill ∷ full_fill ∷ cancel ∷ failed ∷ []
lifecycle_transitions partial_fill = full_fill ∷ cancel ∷ position_update ∷ failed ∷ []
lifecycle_transitions full_fill = position_update ∷ close ∷ reconciliation ∷ []
lifecycle_transitions position_update = close ∷ reconciliation ∷ cancel ∷ []
lifecycle_transitions cancel = close ∷ reconciliation ∷ []
lifecycle_transitions close = reconciliation ∷ []
lifecycle_transitions reconciliation = []
lifecycle_transitions failed = reconciliation ∷ []
lifecycle_transitions blocked = []

pub record OrderLifecycleMachine : Type 0 where
  pub state : OrderLifecycleState
  pub history : List OrderLifecycleState

abbrev pub new : OrderLifecycleState → OrderLifecycleMachine
new s = record { state = s; history = s ∷ [] }

-- OrderLifecycleMachine.transition: an exception leaves the machine as it was.
unfoldable pub transition :
    OrderLifecycleState → OrderLifecycleMachine → Result OrderLifecycleState × OrderLifecycleMachine
transition target m =
    if contains OrderLifecycleState-discrete target (lifecycle_transitions m.state)
    then (ok target, record { state = target; history = m.history ++ target ∷ [] })
    else (err value_error, m)

-- Calls of `transition` whose exceptions the caller survives.
unfoldable pub drive : OrderLifecycleMachine → List OrderLifecycleState → OrderLifecycleMachine
drive m [] = m
drive m (t ∷ ts) = drive (transition t m).1 ts
