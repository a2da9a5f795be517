-- ===== src/Tests/Orders.antt =====
-- The ledger of intents at concrete calls.
use crypto_trading_mcp.Prelude.{◌≡◌, refl, ℕ, String, none, some, List, [], ◌∷◌}
use crypto_trading_mcp.Errors.{ok, err, duplicate_order_error}
use crypto_trading_mcp.Persistence.{DurableStore, Rows, memory_store}
use crypto_trading_mcp.Orders.Ledger.{
  OrderIntent, IntentRow, document, draft, persisted, submitted, written, checked, persist,
  find_by_idempotency,
}
use crypto_trading_mcp.Orders.Ledger.Idempotency.{
  IsConsistent, Call, persisting, marking, drive, persist_unique, drive-IsConsistent, persist-find,
}
use crypto_trading_mcp.Orders.Ledger.Redaction.{IsRedacted}

abbrev store : DurableStore (Rows (IntentRow ℕ String)) (IntentRow ℕ String)
store = memory_store

abbrev intent : String → String → OrderIntent ℕ String
intent id key = record {
  intent_id = id;
  idempotency_key = key;
  strategy_id = "momentum";
  strategy_version = "1.0.0";
  agent_decision_id = none;
  timestamp = "09:00";
  exchange = "paper";
  symbol = "BTC/USD";
  side = "BUY";
  quantity = 1;
  price = none;
  order_type = "MARKET";
  risk_decision = [];
  portfolio_state_ref = none;
  execution_stage = "STAGE_1_LOCAL_PAPER";
  status = draft;
  reason_codes = [];
  exchange_order_id = none;
  metadata = ("api_key", "hidden") ∷ [];
}

abbrev text : String → String
text x = x

-- Another intent, an update, an unknown intent and a duplicate.
abbrev calls : List (Call store)
calls =
    persisting text (intent "INT-2" "other")
    ∷ marking "INT-1" submitted none (some "EX-1")
    ∷ marking "INT-9" submitted none none
    ∷ persisting text (intent "INT-3" "key")
    ∷ []

empty-IsConsistent : IsConsistent store []
unfolding IsConsistent
empty-IsConsistent id i found = cc found

first_accepted :
    (persist store text (intent "INT-1" "key") []).0
    ≡ ok (record (intent "INT-1" "key") { status = persisted })
unfolding persist checked written
first_accepted = refl

persist_unique_example :
    persist store text
      (intent "INT-4" "key")
      (drive store (persist store text (intent "INT-1" "key") []).1 calls)
    ≡ (
      err duplicate_order_error,
      drive store (persist store text (intent "INT-1" "key") []).1 calls,
    )
persist_unique_example =
    persist_unique store text (intent "INT-1" "key") (intent "INT-4" "key") [] calls
      empty-IsConsistent first_accepted refl refl

drive-IsConsistent_example : IsConsistent store (drive store [] calls)
drive-IsConsistent_example = drive-IsConsistent store [] calls empty-IsConsistent

-- An intent with a secret in its metadata.
abbrev keyed_intent : OrderIntent ℕ String
keyed_intent = record (intent "INT-1" "key") {
  metadata = ("Api_Key", "k-123") ∷ ("venue", "paper") ∷ [];
}

keyed_accepted :
    (persist store text keyed_intent []).0 ≡ ok (record keyed_intent { status = persisted })
unfolding persist
keyed_accepted = refl

persist-find_example :
    (record keyed_intent { status = persisted } ≡ record keyed_intent { status = persisted })
    × (j : OrderIntent ℕ String) × (find_by_idempotency store "key"
          (persist store text keyed_intent []).1
        ≡ ok (some (document j)))
    × IsRedacted text keyed_intent.metadata j.metadata
    × (record j { metadata = keyed_intent.metadata } ≡ record keyed_intent { status = persisted })
persist-find_example = persist-find store text keyed_intent [] keyed_accepted
