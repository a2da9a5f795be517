-- ===== src/Sandbox/Execution.antt =====
-- crypto_trading_mcp/sandbox/execution.py: `SandboxExecutionService`, and the methods of
-- `DeltaIndiaSandboxAdapter` (sandbox/delta_sandbox.py) that it calls. The client of the venue behind
-- the adapter is a parameter, and so are the JSON values of a snapshot. The clock and the identifiers
-- of intents and cycles are arguments. The ledger and the reconciliation write to collections of their
-- own of one store, which stand apart here.
pub mod Once
pub mod Switches
use Prim.Native.String.{◌++◌ as join}
use text.Mathlib.Text.{starts_with}
use crypto_trading_mcp.Prelude.{
  String, Bool, true, false, not, Option, none, some, List, [], ◌∷◌, ◌++◌, ◌==◌, one_of, get_or,
  if◌then◌else◌,
}
use crypto_trading_mcp.Text.{upper, lower}
use crypto_trading_mcp.Errors.{PyError, Result, ok, err}
use crypto_trading_mcp.Action.{Action, pure, gets, modify, ◌>>=◌}
use crypto_trading_mcp.Persistence.{DurableStore}
use crypto_trading_mcp.Exchange.Ids.{truthy}
use crypto_trading_mcp.Exchange.Models
use crypto_trading_mcp.Exchange.Models.{OrderSide, OrderType, OrderStatus}
use crypto_trading_mcp.Live.Stages
use crypto_trading_mcp.Live.Stages.{TradingStage}
use crypto_trading_mcp.Orders.Ledger
use crypto_trading_mcp.Orders.Ledger.{
  IntentStatus, OrderIntent, IntentRow, row_intent_id, draft, submitting, submitted, filled, failed,
  find_by_idempotency,
}
use crypto_trading_mcp.Reconciliation.Service.{
  Json, Snapshot, Reconciliation, ReconciliationState, reconciled, Service, compare,
}
use crypto_trading_mcp.Sandbox.Lifecycle
use crypto_trading_mcp.Sandbox.Lifecycle.{
  OrderLifecycleState, OrderLifecycleMachine, create_intent, risk_check, idempotency_check, submit,
  ack, open_new, full_fill, position_update, cancel, close, reconciliation, blocked,
}

-- The order that `submit_order` makes.
pub record SandboxOrder (W : Type 0) : Type 0 where
  pub client_order_id : String
  pub symbol : String
  pub side : OrderSide
  pub order_type : OrderType
  pub quantity : W

-- The client of the venue, over its state: `create_order` returns the identifier of the order.
pub record Venue (V W J : Type 0) : Type 0 where
  pub create_order : SandboxOrder W → Action V (Option String)
  pub get_order : String → Action V OrderStatus
  pub get_balance : Action V J
  pub get_positions : Action V J
  pub get_open_orders : Action V J

-- The values of a snapshot: b.get("free") by the currencies of the balances, [] and 0.0.
pub record SnapshotValues (J : Type 0) : Type 0 where
  pub available : J → J
  pub no_fills : J
  pub no_pnl : J
  -- A text, and {"approved": …}
  pub text : String → J
  pub flag : Bool → J

pub record SandboxExecutionService (V S R : Type 0) : Type 0 where
  pub venue : V
  -- request_log of the adapter: the operations
  pub request_log : List String
  pub ledger : S
  pub reconciliation : Service R
  pub kill_switch_active : Bool
  pub risk_ok : Bool
  pub market_fresh : Bool
  pub stage : TradingStage

-- The arguments of `execute`, with the identifiers and the times that it makes.
pub record ExecuteRequest (W : Type 0) : Type 0 where
  pub symbol : String
  pub side : String
  pub quantity : W
  pub strategy_id : String
  pub cycle_id : String
  pub idempotency_key : Option String
  pub intent_id : String
  pub now : String
  pub reconciled_at : String

pub data BlockReason : Type 0 where
  kill_switch stale_market_data risk_rejected duplicate_idempotency : BlockReason

-- The replies of `execute`.
pub data Outcome : Type 0 where
  order_blocked : BlockReason → Outcome
  order_ambiguous : Reconciliation → Outcome
  order_failed : Outcome
  -- With the identifier of the order, and whether it blocks new trades.
  order_executed : String → Bool → Reconciliation → Outcome

-- What `submit_order` returns.
pub record Submit : Type 0 where
  pub accepted : Bool
  pub ambiguous : Bool
  pub exchange_order_id : Option String

-- The service with the machine of the order.
pub record Execution (V S R : Type 0) : Type 0 where
  pub service : SandboxExecutionService V S R
  pub machine : OrderLifecycleMachine

-- self.stage.value
unfoldable pub stage_value : TradingStage → String
stage_value Stages.stage_0_backtest = "STAGE_0_BACKTEST"
stage_value Stages.stage_1_local_paper = "STAGE_1_LOCAL_PAPER"
stage_value Stages.stage_2_cloud_paper = "STAGE_2_CLOUD_PAPER"
stage_value Stages.stage_3_production_read_only = "STAGE_3_PRODUCTION_READ_ONLY"
stage_value Stages.stage_4_live_dry_run = "STAGE_4_LIVE_DRY_RUN"
stage_value Stages.stage_5_controlled_live = "STAGE_5_CONTROLLED_LIVE"
stage_value Stages.stage_6_autonomous_live = "STAGE_6_AUTONOMOUS_LIVE"

-- str(order.status), of which two names are aliases
unfoldable pub status_value : OrderStatus → String
status_value Models.created = "CREATED"
status_value Models.validated = "VALIDATED"
status_value Models.submitted = "SUBMITTED"
status_value Models.partially_filled = "PARTIALLY_FILLED"
status_value Models.filled = "FILLED"
status_value Models.cancelled = "CANCELLED"
status_value Models.rejected = "REJECTED"
status_value Models.expired = "EXPIRED"

-- `filled` of `execute`
unfoldable pub is_taken_as_filled : OrderStatus → Bool
is_taken_as_filled s = not (one_of (lower (status_value s)) ("open" ∷ "new" ∷ "accepted" ∷ []))

-- idempotency_key or f"{strategy_id}:{symbol}:{side}:{cycle_id}"
unfoldable pub idempotency_key_of : {W : Type 0} → ExecuteRequest W → String
idempotency_key_of i =
    get_or (truthy i.idempotency_key)
      (join i.strategy_id (join ":" (join i.symbol (join ":" (join i.side (join ":" i.cycle_id))))))

module _ {V S R : Type 0} where
  -- sm.transition
  unfoldable pub move : OrderLifecycleState → Action (Execution V S R) (Unit {0})
  move t e =
      let (r, m) = Lifecycle.transition t e.machine in
      (elim r [ ok u ↦ ok tt | err x ↦ err x ], record e { machine = m })

  -- A call of the ledger.
  abbrev pub on_ledger : {A : Type 0} → Action S A → Action (Execution V S R) A
  on_ledger m e =
      let (r, s) = m e.service.ledger in (r, record e { service = record e.service { ledger = s } })

  -- A request of the adapter to the venue, which it logs first.
  unfoldable pub ask : {A : Type 0} → String → Action V A → Action (Execution V S R) A
  ask op m e =
      let (r, v) = m e.service.venue in
      (
        r,
        record e {
          service = record e.service { venue = v; request_log = e.service.request_log ++ op ∷ [] };
        },
      )

  -- SandboxExecutionService._block
  unfoldable pub block : BlockReason → Action (Execution V S R) Outcome
  block reason = move blocked >>= λ _. pure (order_blocked reason)

-- The order of DeltaIndiaSandboxAdapter.submit_order, for order_type="MARKET"
abbrev pub order_of : {W : Type 0} → ExecuteRequest W → SandboxOrder W
order_of i = record {
  client_order_id = i.intent_id;
  symbol = i.symbol;
  side = if starts_with (upper i.side) "BUY" then Models.buy else Models.sell;
  order_type = Models.market;
  quantity = i.quantity;
}

-- What it makes of the reply of the venue: an exception is an ambiguous submission.
unfoldable pub submit_reply : Result (Option String) → Submit
submit_reply (ok id) = record { accepted = true; ambiguous = false; exchange_order_id = id }
submit_reply (err x) = record { accepted = false; ambiguous = true; exchange_order_id = none }

-- DeltaIndiaSandboxAdapter.submit_order
unfoldable pub submit_order :
    {V W J S R : Type 0} → Venue V W J → ExecuteRequest W → Action (Execution V S R) Submit
submit_order v i e =
    let (r, e') = ask "submit_order" (v.create_order (order_of i)) e in (ok (submit_reply r), e')

module _ {V W J S R : Type 0} (v : Venue V W J) (values : SnapshotValues J) (json : Json J)
    (d : DurableStore S (IntentRow W J)) (rd : DurableStore R Reconciliation) where
  -- The intent of `execute`.
  abbrev pub intent_of : ExecuteRequest W → SandboxExecutionService V S R → OrderIntent W J
  intent_of i s = record {
    intent_id = i.intent_id;
    idempotency_key = idempotency_key_of i;
    strategy_id = i.strategy_id;
    strategy_version = "1.0.0";
    agent_decision_id = some i.cycle_id;
    timestamp = i.now;
    exchange = "delta_india_sandbox";
    symbol = i.symbol;
    side = i.side;
    quantity = i.quantity;
    price = none;
    order_type = "MARKET";
    risk_decision = ("approved", values.flag s.risk_ok) ∷ [];
    portfolio_state_ref = none;
    execution_stage = stage_value s.stage;
    status = draft;
    reason_codes = [];
    exchange_order_id = none;
    metadata = ("cycle_id", values.text i.cycle_id) ∷ [];
  }

  -- `existing and existing.get("intent_id") != intent.intent_id`
  unfoldable pub is_other : String → Option (IntentRow W J) → Bool
  is_other id none = false
  is_other id (some r) = not (row_intent_id r == id)

  -- The check of the key; `would_duplicate` and `find_by_idempotency` read the same rows.
  unfoldable pub find_other : String → String → Action (Execution V S R) Bool
  find_other key id e = (
    elim (find_by_idempotency d key e.service.ledger) [
      | err x ↦ err x
      | ok row ↦ ok (is_other id row)
    ],
    e,
  )

  abbrev pub mark :
      String
      → IntentStatus
      → Option (List String)
      → Option String
      → Action (Execution V S R) (IntentRow W J)
  mark id status codes order_id = on_ledger (Ledger.mark d id status codes order_id)

  -- self.reconciliation.compare
  unfoldable pub compared : Snapshot J → String → Action (Execution V S R) Reconciliation
  compared snapshot now e =
      let (result, s) =
        compare rd json snapshot (some snapshot) none now e.service.reconciliation in
      (ok result, record e { service = record e.service { reconciliation = s } })

  -- SandboxExecutionService._reconcile
  unfoldable pub reconcile : String → Action (Execution V S R) Reconciliation
  reconcile now = do
    balances ← ask "get_balances" v.get_balance
    positions ← ask "get_positions" v.get_positions
    opens ← ask "get_open_orders" v.get_open_orders
    compared
        (record {
          fields =
              ("balances", balances)
              ∷ ("available_balances", values.available balances)
              ∷ ("positions", positions)
              ∷ ("open_orders", opens)
              ∷ ("fills", values.no_fills)
              ∷ ("realized_pnl", values.no_pnl)
              ∷ ("unrealized_pnl", values.no_pnl)
              ∷ [];
          position_details = [];
        })
        now

  abbrev pub is_reconciled : ReconciliationState → Bool
  is_reconciled reconciled = true
  is_reconciled _ = false

  -- The machine and the ledger, where the order is filled and where it is not.
  unfoldable pub concluded : ExecuteRequest W → String → Bool → Action (Execution V S R) (Unit {0})
  concluded i order_id true = do
    _ ← move full_fill
    _ ← move position_update
    _ ← mark i.intent_id filled none (some order_id)
    pure tt
  concluded i order_id false = move cancel

  -- An accepted submission.
  unfoldable pub accepted_order : ExecuteRequest W → String → Action (Execution V S R) Outcome
  accepted_order i order_id = do
    _ ← move ack
    _ ← mark i.intent_id submitted none (some order_id)
    _ ← move open_new
    status ← ask "get_order_status" (v.get_order order_id)
    _ ← concluded i order_id (is_taken_as_filled status)
    _ ← move close
    _ ← move reconciliation
    result ← reconcile i.reconciled_at
    pure (order_executed order_id (not (is_reconciled result.state)) result)

  -- A submission that is ambiguous, or was not accepted.
  unfoldable pub unaccepted : ExecuteRequest W → Bool → Action (Execution V S R) Outcome
  unaccepted i true = do
    _ ← move reconciliation
    result ← reconcile i.reconciled_at
    _ ← mark i.intent_id failed (some ("AMBIGUOUS_SUBMIT" ∷ "RECONCILE_BEFORE_RETRY" ∷ [])) none
    pure (order_ambiguous result)
  unaccepted i false = do
    _ ← move Lifecycle.failed
    _ ← mark i.intent_id failed (some ("SUBMIT_FAILED" ∷ [])) none
    pure order_failed

  abbrev pub submitted_order : ExecuteRequest W → Submit → Action (Execution V S R) Outcome
  submitted_order i reply =
      if reply.accepted
      then accepted_order i (get_or reply.exchange_order_id "")
      else unaccepted i reply.ambiguous

  -- After the check of the key.
  unfoldable pub keyed : ExecuteRequest W → Bool → Action (Execution V S R) Outcome
  keyed i true = block duplicate_idempotency
  keyed i false = do
    _ ← move submit
    _ ← mark i.intent_id submitting none none
    reply ← submit_order v i
    submitted_order i reply

  -- The three switches of the service.
  unfoldable pub screened :
      ExecuteRequest W → SandboxExecutionService V S R → Action (Execution V S R) Outcome
  screened i s =
      if s.kill_switch_active
      then block kill_switch
      else if not s.market_fresh
      then block stale_market_data
      else if not s.risk_ok
      then block risk_rejected
      else move idempotency_check >>= λ _. find_other (idempotency_key_of i) i.intent_id >>= keyed i

  unfoldable pub executing :
      ExecuteRequest W → SandboxExecutionService V S R → Action (Execution V S R) Outcome
  executing i s = do
    _ ← on_ledger (Ledger.persist d values.text (intent_of i s))
    _ ← move risk_check
    screened i s

  -- SandboxExecutionService.execute, with `sm.status()`
  unfoldable pub execute :
      ExecuteRequest W
      → SandboxExecutionService V S R
      → Result Outcome × OrderLifecycleMachine × SandboxExecutionService V S R
  execute i s =
      let (r, e) = executing i s (record { service = s; machine = Lifecycle.new create_intent }) in
      (r, e.machine, e.service)
