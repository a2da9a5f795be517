-- ===== src/Sandbox/Lifecycle/Safety.antt =====
-- The history of an order's machine (lifecycle.py) records the checks that its state needs.
use crypto_trading_mcp.Prelude.{
  ◌≡◌, refl, Bool, true, false, not, ◌||◌, List, [], ◌∷◌, ◌++◌, arith, all, Bool-cases, inl, inr,
}
use crypto_trading_mcp.Machine.{contains, all-contains, contains-append_left, contains-append_gate}
use crypto_trading_mcp.Sandbox.Lifecycle.{
  OrderLifecycleState, OrderLifecycleState-discrete, lifecycle_transitions, OrderLifecycleMachine,
  new, transition, drive, create_intent, risk_check, idempotency_check, submit, ack, open_new,
  partial_fill, full_fill, position_update, cancel, close,
}

-- From SUBMIT on: the order may be known to the venue.
abbrev pub is_sent : OrderLifecycleState → Bool
is_sent submit = true
is_sent ack = true
is_sent open_new = true
is_sent partial_fill = true
is_sent full_fill = true
is_sent position_update = true
is_sent cancel = true
is_sent close = true
is_sent _ = false

abbrev past_idempotency : OrderLifecycleState → Bool
past_idempotency idempotency_check = true
past_idempotency s = is_sent s

abbrev past_risk : OrderLifecycleState → Bool
past_risk risk_check = true
past_risk s = past_idempotency s

abbrev is_at : OrderLifecycleState → OrderLifecycleState → Bool
is_at gate t = contains OrderLifecycleState-discrete t (gate ∷ [])

risk-edges :
    (s : OrderLifecycleState)
    → all (λ t. past_risk s || (not (past_risk t) || is_at risk_check t)) (lifecycle_transitions s)
      ≡ true
unfolding lifecycle_transitions contains OrderLifecycleState-discrete
risk-edges create_intent = refl
risk-edges _ = refl

idempotency-edges :
    (s : OrderLifecycleState)
    → all
        (λ t. past_idempotency s || (not (past_idempotency t) || is_at idempotency_check t))
        (lifecycle_transitions s)
      ≡ true
unfolding lifecycle_transitions contains OrderLifecycleState-discrete
idempotency-edges create_intent = refl
idempotency-edges _ = refl

-- The checks that the state needs stand in the history.
pub record IsChecked (m : OrderLifecycleMachine) : Type 0 where
  pub risk :
      past_risk m.state ≡ true → contains OrderLifecycleState-discrete risk_check m.history ≡ true
  pub idempotency :
      past_idempotency m.state ≡ true
      → contains OrderLifecycleState-discrete idempotency_check m.history ≡ true

-- One field of the invariant, for a set of states entered only through its gate.
append_gate :
    (passed : OrderLifecycleState → Bool) (gate : OrderLifecycleState)
    → ((s : OrderLifecycleState)
        → all (λ t. passed s || (not (passed t) || is_at gate t)) (lifecycle_transitions s) ≡ true)
    → (s t : OrderLifecycleState) (h : List OrderLifecycleState)
    → contains OrderLifecycleState-discrete t (lifecycle_transitions s) ≡ true
    → (passed s ≡ true → contains OrderLifecycleState-discrete gate h ≡ true)
    → passed t ≡ true
    → contains OrderLifecycleState-discrete gate (h ++ t ∷ []) ≡ true
append_gate passed gate edges s t h allowed before after = ground (
  arith,
  all-contains OrderLifecycleState-discrete (λ x. passed s || (not (passed x) || is_at gate x)) t
      (lifecycle_transitions s) (edges s) allowed,
  contains-append_left OrderLifecycleState-discrete gate h (t ∷ []),
  before,
  contains-append_gate OrderLifecycleState-discrete t gate h,
)

transition-IsChecked :
    (t : OrderLifecycleState) (m : OrderLifecycleMachine)
    → IsChecked m
    → IsChecked (transition t m).1
unfolding transition
transition-IsChecked t m c =
    elim (Bool-cases (contains OrderLifecycleState-discrete t (lifecycle_transitions m.state))) [
      | inl allowed ↦
          rw (allowed, transition)
            (record {
              risk = append_gate past_risk risk_check risk-edges m.state t m.history allowed c.risk;
              idempotency =
                  append_gate past_idempotency idempotency_check idempotency-edges m.state t
                    m.history allowed c.idempotency;
            })
      | inr refused ↦ rw (refused, transition) c
    ]

drive-IsChecked :
    (m : OrderLifecycleMachine) (ts : List OrderLifecycleState)
    → IsChecked m
    → IsChecked (drive m ts)
unfolding drive
drive-IsChecked m [] c = c
drive-IsChecked m (t ∷ ts) c = drive-IsChecked (transition t m).1 ts (transition-IsChecked t m c)

-- Whatever transitions are asked for, from CREATE_INTENT on, and whichever of them are refused: an
-- order that has been sent has RISK_CHECK and IDEMPOTENCY_CHECK in its history.
pub sent_was_checked :
    (ts : List OrderLifecycleState)
    → is_sent (drive (new create_intent) ts).state ≡ true
    → let m = drive (new create_intent) ts in
      (contains OrderLifecycleState-discrete risk_check m.history ≡ true)
      × (contains OrderLifecycleState-discrete idempotency_check m.history ≡ true)
sent_was_checked ts sent =
    let m = drive (new create_intent) ts in
    let c =
      drive-IsChecked (new create_intent) ts (record { risk = λ h. cc; idempotency = λ h. cc }) in
    (c.risk (sent_past_risk m.state sent), c.idempotency (sent_past_idempotency m.state sent))
  where
    sent_past_risk : (s : OrderLifecycleState) → is_sent s ≡ true → past_risk s ≡ true
    sent_past_risk s h = ground arith

    sent_past_idempotency : (s : OrderLifecycleState) → is_sent s ≡ true → past_idempotency s ≡ true
    sent_past_idempotency s h = ground arith
