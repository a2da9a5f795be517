-- ===== src/Tests/Sandbox.antt =====
-- The sandbox service at concrete orders.
use crypto_trading_mcp.Prelude.{
  ◌≡◌, refl, ℕ, ◌+◌, String, true, false, none, some, List, [], ◌∷◌, ◌==◌,
}
use crypto_trading_mcp.Errors.{ok, err, duplicate_order_error}
use crypto_trading_mcp.Persistence.{DurableStore, Rows, memory_store}
use crypto_trading_mcp.Exchange.Models
use crypto_trading_mcp.Live.Stages.{stage_2_cloud_paper}
use crypto_trading_mcp.Orders.Ledger.{IntentRow, persist, find_by_idempotency, to_public_dict, mark}
use crypto_trading_mcp.Orders.Ledger.Idempotency.{IsConsistent}
use crypto_trading_mcp.Reconciliation.Service.{Json, Reconciliation}
use crypto_trading_mcp.Sandbox.Lifecycle.{
  blocked, transition, lifecycle_transitions, OrderLifecycleState-discrete,
}
use crypto_trading_mcp.Sandbox.Execution.{
  Venue, SnapshotValues, SandboxExecutionService, ExecuteRequest, Outcome, order_blocked,
  stale_market_data, execute, idempotency_key_of, executing, move, screened, find_other, keyed,
  is_other, submit_order, submit_reply, ask, accepted_order, concluded, is_taken_as_filled,
  status_value, reconcile, compared,
}
use crypto_trading_mcp.Sandbox.Execution.Once.{Step, executes, sets, run, executed_under_key}
use crypto_trading_mcp.Sandbox.Execution.Switches.{switched_off}
use crypto_trading_mcp.Machine.{contains}
use crypto_trading_mcp.Text.{lower}
use crypto_trading_mcp.Sandbox.Execution

-- A venue that counts its orders.
abbrev venue : Venue ℕ ℕ String
venue = record {
  create_order = λ o n. (ok (some "EX-1"), n + 1);
  get_order = λ id n. (ok Models.created, n);
  get_balance = λ n. (ok "balance", n);
  get_positions = λ n. (ok "positions", n);
  get_open_orders = λ n. (ok "orders", n);
}

abbrev values : SnapshotValues String
values = record {
  available = λ b. b;
  no_fills = "[]";
  no_pnl = "0.0";
  text = λ s. s;
  flag = λ b. "flag";
}

abbrev json : Json String
json = record { null = "None"; same = λ a b. a == b; through = λ l. l }

abbrev intents : DurableStore (Rows (IntentRow ℕ String)) (IntentRow ℕ String)
intents = memory_store

abbrev results : DurableStore (Rows Reconciliation) Reconciliation
results = memory_store

abbrev service : SandboxExecutionService ℕ (Rows (IntentRow ℕ String)) (Rows Reconciliation)
service = record {
  venue = 0;
  request_log = [];
  ledger = [];
  reconciliation = record { store = []; last = none };
  kill_switch_active = false;
  risk_ok = true;
  market_fresh = true;
  stage = stage_2_cloud_paper;
}

abbrev order : String → String → ExecuteRequest ℕ
order id key = record {
  symbol = "BTCUSD";
  side = "BUY";
  quantity = 1;
  strategy_id = "momentum";
  cycle_id = "CYC-1";
  idempotency_key = some key;
  intent_id = id;
  now = "09:00";
  reconciled_at = "09:01";
}

abbrev steps : List (Step venue values json intents results)
steps =
    executes (order "INT-2" "other") ∷ sets true true true ∷ executes (order "INT-3" "third") ∷ []

empty-IsConsistent : IsConsistent intents []
unfolding IsConsistent
empty-IsConsistent id i found = cc found

first_filled :
    (o : Outcome) × ((execute venue values json intents results (order "INT-1" "key") service).0
      ≡ ok o)
unfolding execute executing persist move transition contains lifecycle_transitions
    OrderLifecycleState-discrete screened find_other find_by_idempotency
    Execution.idempotency_key_of keyed is_other to_public_dict mark submit_order submit_reply ask
    accepted_order concluded is_taken_as_filled lower status_value reconcile compared
first_filled = (_, refl)

executed_under_key_example :
    let later =
      run venue values json intents results
        (execute venue values json intents results (order "INT-1" "key") service).2
        steps in
    let (r, machine, s') = execute venue values json intents results (order "INT-4" "key") later in
    (r ≡ err duplicate_order_error) × (s' ≡ later)
unfolding idempotency_key_of
executed_under_key_example =
    executed_under_key venue values json intents results (order "INT-1" "key") (order "INT-4" "key")
      service steps empty-IsConsistent first_filled.1 refl refl

switched_off_example :
    let stale = record service { market_fresh = false } in
    let (r, machine, s') = execute venue values json intents results (order "INT-1" "key") stale in
    (s'.venue ≡ 0)
    × (s'.request_log ≡ [])
    × ((o : Outcome) → r ≡ ok o → (o ≡ order_blocked stale_market_data) × (machine.state ≡ blocked))
switched_off_example =
    switched_off venue values json intents results (order "INT-1" "key")
      (record service { market_fresh = false }) refl
