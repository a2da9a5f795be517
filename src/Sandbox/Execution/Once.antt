-- ===== src/Sandbox/Execution/Once.antt =====
-- A key of the sandbox service is used for one order.
use crypto_trading_mcp.Prelude.{
  ◌≡◌, refl, ap, String, Bool, true, false, ◌==◌, Option, List, [], ◌∷◌,
}
use crypto_trading_mcp.Errors.{Result, ok, err, duplicate_order_error}
use crypto_trading_mcp.Action.{Action, continue, ◌>>=◌}
use crypto_trading_mcp.Action.Moves.{IsFrame, Moves, Moves-pure, Moves-bind, Moves-if}
use crypto_trading_mcp.Persistence.{DurableStore}
use crypto_trading_mcp.Orders.Ledger.{OrderIntent, IntentRow, IntentStatus, persist}
use crypto_trading_mcp.Orders.Ledger.Idempotency.{
  IsConsistent, Claimed, Kept, persist-Kept, mark-Kept, checked-Claimed, Claimed-persist,
}
use crypto_trading_mcp.Reconciliation.Service.{Json, Snapshot, Reconciliation}
use crypto_trading_mcp.Sandbox.Lifecycle.{OrderLifecycleState, create_intent, risk_check, new}
use crypto_trading_mcp.Sandbox.Execution.{
  SnapshotValues, SandboxExecutionService, ExecuteRequest, Venue, Outcome, Submit, BlockReason,
  Execution, idempotency_key_of, move, on_ledger, ask, block, submit_order, intent_of, find_other,
  mark, compared, reconcile, concluded, accepted_order, unaccepted, submitted_order, keyed,
  screened, executing, execute,
}

module _ {V W J S R : Type 0} (v : Venue V W J) (values : SnapshotValues J) (json : Json J)
    (d : DurableStore S (IntentRow W J)) (rd : DurableStore R Reconciliation) where
  -- Over a consistent ledger: it stays so, and no claim is lost.
  abbrev Keeps : S → S → Type 0
  Keeps s s' = IsConsistent d s → Kept d s s'

  Keeps-trans : (s t u : S) → Keeps s t → Keeps t u → Keeps s u
  unfolding Kept
  Keeps-trans s t u h k c =
      let (c', claims) = h c in
      let (c'', later) = k c' in (c'', λ key id own. later key id (claims key id own))

  LedgerKept : Execution V S R → Execution V S R → Type 0
  LedgerKept e e' = Keeps e.service.ledger e'.service.ledger

  frame : IsFrame LedgerKept
  unfolding LedgerKept Kept
  frame = record {
    stay = λ e c. (c, λ key id own. own);
    chain = λ e e' e'' h k. Keeps-trans e.service.ledger e'.service.ledger e''.service.ledger h k;
  }

  step_then :
      {A B : Type 0} (m : Action (Execution V S R) A) (f : A → Action (Execution V S R) B)
      → Moves LedgerKept m
      → ((a : A) → Moves LedgerKept (f a))
      → Moves LedgerKept (m >>= f)
  step_then m f h g = Moves-bind frame m f h g

  Moves-move : (t : OrderLifecycleState) → Moves LedgerKept (move t)
  unfolding LedgerKept move Kept
  Moves-move t = record { at = λ e c. (c, λ key id own. own) }

  Moves-ask : {A : Type 0} (op : String) (m : Action V A) → Moves LedgerKept (ask op m)
  unfolding LedgerKept ask Kept
  Moves-ask op m = record { at = λ e c. (c, λ key id own. own) }

  Moves-submit_order : (i : ExecuteRequest W) → Moves LedgerKept (submit_order v i)
  unfolding LedgerKept submit_order ask Kept
  Moves-submit_order i = record { at = λ e c. (c, λ key id own. own) }

  Moves-find_other : (key id : String) → Moves LedgerKept (find_other v values json d rd key id)
  unfolding LedgerKept find_other Kept
  Moves-find_other key id = record { at = λ e c. (c, λ key id own. own) }

  Moves-compared :
      (snapshot : Snapshot J) (now : String)
      → Moves LedgerKept (compared v values json d rd snapshot now)
  unfolding LedgerKept compared Kept
  Moves-compared snapshot now = record { at = λ e c. (c, λ key id own. own) }

  Moves-mark :
      (id : String) (status : IntentStatus) (codes : Option (List String))
      (order_id : Option String)
      → Moves LedgerKept (mark v values json d rd id status codes order_id)
  unfolding LedgerKept
  Moves-mark id status codes order_id = record {
    at = λ e c. mark-Kept d id status codes order_id e.service.ledger c;
  }

  Moves-reconcile : (now : String) → Moves LedgerKept (reconcile v values json d rd now)
  unfolding reconcile
  Moves-reconcile now = search (step_then, Moves-ask, Moves-compared) depth 20

  Moves-concluded :
      (i : ExecuteRequest W) (order_id : String) (b : Bool)
      → Moves LedgerKept (concluded v values json d rd i order_id b)
  unfolding concluded
  Moves-concluded i order_id true =
      search (step_then, Moves-move, Moves-mark, Moves-pure frame) depth 20
  Moves-concluded i order_id false = Moves-move _

  Moves-accepted_order :
      (i : ExecuteRequest W) (order_id : String)
      → Moves LedgerKept (accepted_order v values json d rd i order_id)
  unfolding accepted_order
  Moves-accepted_order i order_id =
      search
        (
          step_then,
          Moves-move,
          Moves-mark,
          Moves-ask,
          Moves-concluded,
          Moves-reconcile,
          Moves-pure frame,
        )
        depth 30

  Moves-unaccepted :
      (i : ExecuteRequest W) (b : Bool) → Moves LedgerKept (unaccepted v values json d rd i b)
  unfolding unaccepted
  Moves-unaccepted i true =
      search (step_then, Moves-move, Moves-mark, Moves-reconcile, Moves-pure frame) depth 20
  Moves-unaccepted i false = search (step_then, Moves-move, Moves-mark, Moves-pure frame) depth 20

  Moves-submitted_order :
      (i : ExecuteRequest W) (accepted ambiguous : Bool) (id : Option String)
      → Moves LedgerKept (
          submitted_order v values json d rd i
            (record { accepted = accepted; ambiguous = ambiguous; exchange_order_id = id }))
  Moves-submitted_order i true b id = Moves-accepted_order i _
  Moves-submitted_order i false b id = Moves-unaccepted i b

  Moves-block : (reason : BlockReason) → Moves LedgerKept (block reason)
  unfolding block
  Moves-block reason = search (step_then, Moves-move, Moves-pure frame)

  Moves-keyed : (i : ExecuteRequest W) (b : Bool) → Moves LedgerKept (keyed v values json d rd i b)
  unfolding keyed
  Moves-keyed i true = Moves-block _
  Moves-keyed i false =
      search (step_then, Moves-move, Moves-mark, Moves-submit_order, submitted) depth 20
    where
      submitted : (r : Submit) → Moves LedgerKept (submitted_order v values json d rd i r)
      submitted r = Moves-submitted_order i r.accepted r.ambiguous r.exchange_order_id

  Moves-screened :
      (i : ExecuteRequest W) (s : SandboxExecutionService V S R)
      → Moves LedgerKept (screened v values json d rd i s)
  unfolding screened
  Moves-screened i s =
      search (Moves-if frame, step_then, Moves-move, Moves-find_other, Moves-keyed, Moves-block)
        depth 20

  -- What follows the record of the intent.
  abbrev rest : ExecuteRequest W → SandboxExecutionService V S R → Action (Execution V S R) Outcome
  rest i s = move risk_check >>= λ _. screened v values json d rd i s

  Moves-rest :
      (i : ExecuteRequest W) (s : SandboxExecutionService V S R) → Moves LedgerKept (rest i s)
  Moves-rest i s = search (step_then, Moves-move, Moves-screened)

  abbrev created : SandboxExecutionService V S R → Execution V S R
  created s = record { service = s; machine = new create_intent }

  execute-Keeps :
      (i : ExecuteRequest W) (s : SandboxExecutionService V S R)
      → Keeps s.ledger (execute v values json d rd i s).2.ledger
  unfolding execute executing LedgerKept
  execute-Keeps i s =
      (Moves-bind frame (on_ledger (persist d values.text (intent_of v values json d rd i s)))
          (λ _. rest i s)
          (record {
            at = λ e c.
                persist-Kept d values.text (intent_of v values json d rd i s) e.service.ledger c;
          })
          (λ _. Moves-rest i s)).at
        (created s)

  -- A reply comes only after the key is claimed.
  execute-Claimed :
      (i : ExecuteRequest W) (s : SandboxExecutionService V S R) {o : Outcome}
      → IsConsistent d s.ledger
      → (execute v values json d rd i s).0 ≡ ok o
      → Claimed d (idempotency_key_of i) i.intent_id (execute v values json d rd i s).2.ledger
  unfolding execute executing LedgerKept persist Kept
  execute-Claimed i s {o} c h =
      let intent = intent_of v values json d rd i s in
      after (persist d values.text intent s.ledger)
        (λ i'.
          checked-Claimed d (d.get_json "order_idempotency" intent.idempotency_key s.ledger)
            values.text intent s.ledger)
        (persist-Kept d values.text intent s.ledger c).0 h
    where
      after :
          (r : Result (OrderIntent W J) × S)
          → ((i' : OrderIntent W J)
              → r.0 ≡ ok i'
              → Claimed d (idempotency_key_of i) i.intent_id r.1)
          → IsConsistent d r.1
          → let e = created (record s { ledger = r.1 }) in
            (continue (r.0, e) (λ _. rest i s)).0 ≡ ok o
            → Claimed d
                (idempotency_key_of i)
                i.intent_id
                (continue (r.0, e) (λ _. rest i s)).1.service.ledger
      after (ok i', s') own c' k = ((Moves-rest i s).at _ c').1 _ _ (own i' refl)
      after (err x, s') own c' k = cc

  -- An execution whose intent is refused.
  refused_at :
      (j : ExecuteRequest W) (s : SandboxExecutionService V S R)
      → persist d values.text (intent_of v values json d rd j s) s.ledger
        ≡ (err duplicate_order_error, s.ledger)
      → let (r, machine, s') = execute v values json d rd j s in
        (r ≡ err duplicate_order_error) × (s' ≡ s)
  unfolding execute executing
  refused_at j s h =
      let went : Result (OrderIntent W J) × S → Result Outcome × Execution V S R =
        λ r. continue (r.0, created (record s { ledger = r.1 })) (λ _. rest j s) in
      (ap (λ r. (went r).0) h, ap (λ r. (went r).1.service) h)

  -- What happens to the service: an execution, or a setting of its switches.
  pub data Step : Type 0 where
    executes : ExecuteRequest W → Step
    sets : Bool → Bool → Bool → Step

  unfoldable pub run : SandboxExecutionService V S R → List Step → SandboxExecutionService V S R
  run s [] = s
  run s (executes i ∷ steps) = run (execute v values json d rd i s).2 steps
  run s (sets kill risk fresh ∷ steps) =
      run (record s { kill_switch_active = kill; risk_ok = risk; market_fresh = fresh }) steps

  run-Keeps :
      (s : SandboxExecutionService V S R) (steps : List Step) → Keeps s.ledger (run s steps).ledger
  unfolding run Kept
  run-Keeps s [] = λ c. (c, λ key id own. own)
  run-Keeps s (executes i ∷ steps) =
      let s' = (execute v values json d rd i s).2 in
      Keeps-trans s.ledger s'.ledger (run s' steps).ledger (execute-Keeps i s) (run-Keeps s' steps)
  run-Keeps s (sets kill risk fresh ∷ steps) = run-Keeps _ steps

  -- Over a ledger whose recorded intents own their keys: once an execution has come back, under
  -- whatever reply, a later execution with the same idempotency key and another intent is refused
  -- as a duplicate, and changes nothing: it asks nothing of the venue. In between, orders may be
  -- executed and the switches of the service set.
  pub executed_under_key :
      (i j : ExecuteRequest W) (s : SandboxExecutionService V S R) (steps : List Step) {o : Outcome}
      → IsConsistent d s.ledger
      → (execute v values json d rd i s).0 ≡ ok o
      → idempotency_key_of i ≡ idempotency_key_of j
      → (i.intent_id == j.intent_id) ≡ false
      → let later = run (execute v values json d rd i s).2 steps in
        let (r, machine, s') = execute v values json d rd j later in
        (r ≡ err duplicate_order_error) × (s' ≡ later)
  unfolding Kept
  executed_under_key i j s steps c h same other =
      let s1 = (execute v values json d rd i s).2 in
      let later = run s1 steps in
      let (c1, claims) = execute-Keeps i s c in
      let own = ((run-Keeps s1 steps) c1).1 _ _ (execute-Claimed i s c h) in
      let refused =
        Claimed-persist d (idempotency_key_of i) i.intent_id values.text
          (intent_of v values json d rd j later) later.ledger own same other in
      refused_at j later refused
