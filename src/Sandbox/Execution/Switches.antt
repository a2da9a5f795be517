-- ===== src/Sandbox/Execution/Switches.antt =====
-- The switches of the sandbox service stand before the venue.
use crypto_trading_mcp.Prelude.{◌≡◌, refl, Bool, true, false, ◌||◌, not, arith, if◌then◌else◌}
use crypto_trading_mcp.Errors.{Result, ok, err}
use crypto_trading_mcp.Action.{continue, ◌>>=◌}
use crypto_trading_mcp.Persistence.{DurableStore}
use crypto_trading_mcp.Machine.{contains}
use crypto_trading_mcp.Orders.Ledger.{OrderIntent, IntentRow, persist}
use crypto_trading_mcp.Reconciliation.Service.{Json, Reconciliation}
use crypto_trading_mcp.Sandbox.Lifecycle
use crypto_trading_mcp.Sandbox.Lifecycle.{
  OrderLifecycleMachine, OrderLifecycleState-discrete, lifecycle_transitions, create_intent,
  risk_check, blocked, new,
}
use crypto_trading_mcp.Sandbox.Execution.{
  SnapshotValues, SandboxExecutionService, ExecuteRequest, Venue, Outcome, BlockReason,
  order_blocked, kill_switch, stale_market_data, risk_rejected, Execution, move, block, intent_of,
  screened, executing, execute,
}

-- The first switch that objects.
abbrev objection : {V S R : Type 0} → SandboxExecutionService V S R → BlockReason
objection s =
    if s.kill_switch_active
    then kill_switch
    else if not s.market_fresh
    then stale_market_data
    else risk_rejected

module _ {V W J S R : Type 0} (v : Venue V W J) (values : SnapshotValues J) (json : Json J)
    (d : DurableStore S (IntentRow W J)) (rd : DurableStore R Reconciliation) where
  -- While the kill switch is active, the market data are stale or the risk check has failed, an
  -- execution sends no request to the venue; where it comes back, it is blocked for the first of
  -- these reasons, and so is the machine of the order.
  pub switched_off :
      (i : ExecuteRequest W) (s : SandboxExecutionService V S R)
      → (s.kill_switch_active || (not s.market_fresh || not s.risk_ok)) ≡ true
      → let (r, machine, s') = execute v values json d rd i s in
        (s'.venue ≡ s.venue)
        × (s'.request_log ≡ s.request_log)
        × ((o : Outcome) → r ≡ ok o → (o ≡ order_blocked (objection s)) × (machine.state ≡ blocked))
  unfolding execute executing screened block move Lifecycle.transition lifecycle_transitions
      contains OrderLifecycleState-discrete
  switched_off i s h =
      by_switch s.kill_switch_active s.market_fresh s.risk_ok h
        (persist d values.text (intent_of v values json d rd i s) s.ledger)
    where
      by_switch :
          (kill fresh risk : Bool)
          → (kill || (not fresh || not risk)) ≡ true
          → (p : Result (OrderIntent W J) × S)
          → let flags = record s {
            kill_switch_active = kill;
            market_fresh = fresh;
            risk_ok = risk;
          } in
            let e : Execution V S R = record {
              service = record s { ledger = p.1 };
              machine = new create_intent;
            } in
            let (r, e') =
              continue
                (p.0, e)
                (λ _. move risk_check >>= λ _. screened v values json d rd i flags) in
            (e'.service.venue ≡ s.venue)
            × (e'.service.request_log ≡ s.request_log)
            × ((o : Outcome)
                → r ≡ ok o
                → (o ≡ order_blocked (objection flags)) × (e'.machine.state ≡ blocked))
      by_switch true fresh risk k (ok i', l) = (refl, refl, λ o q. (cc, refl))
      by_switch false false risk k (ok i', l) = (refl, refl, λ o q. (cc, refl))
      by_switch false true false k (ok i', l) = (refl, refl, λ o q. (cc, refl))
      by_switch false true true k (ok i', l) = ground arith
      by_switch kill fresh risk k (err x, l) = (refl, refl, λ o q. cc)
