-- ===== src/Orders/Ledger.antt =====
-- crypto_trading_mcp/orders/intent.py and ledger.py: `OrderIntentLedger`, which records an intent
-- before it is submitted and refuses a second intent under the same idempotency key. A method
-- that raises returns the store as it stands.
pub mod Idempotency
pub mod Redaction
use crypto_trading_mcp.Prelude.{
  String, Bool, Option, none, some, List, [], ◌∷◌, map, any, ◌==◌, if◌then◌else◌, get_or,
}
use crypto_trading_mcp.Errors.{Result, ok, err, key_error, duplicate_order_error}
use crypto_trading_mcp.Text.{lower, is_within}
use crypto_trading_mcp.Persistence.{DurableStore}

pub data IntentStatus : Type 0 where
  draft persisted submitting submitted partially_filled filled : IntentStatus
  cancel_requested cancelled rejected failed : IntentStatus

-- `W` is the type of the floats and `J` the one of the JSON values.
pub record OrderIntent (W J : Type 0) : Type 0 where
  pub intent_id : String
  pub idempotency_key : String
  pub strategy_id : String
  pub strategy_version : String
  pub agent_decision_id : Option String
  pub timestamp : String
  pub exchange : String
  pub symbol : String
  pub side : String
  pub quantity : W
  pub price : Option W
  pub order_type : String
  pub risk_decision : List (String × J)
  pub portfolio_state_ref : Option String
  pub execution_stage : String
  pub status : IntentStatus
  pub reason_codes : List String
  pub exchange_order_id : Option String
  pub metadata : List (String × J)

-- A key of the metadata that names a secret.
pub is_secret : String → Bool
is_secret k = any (λ s. is_within s (lower k)) ("secret" ∷ "api_key" ∷ "token" ∷ "password" ∷ [])

-- OrderIntent.to_public_dict; `text` makes a JSON value of a text.
unfoldable pub to_public_dict : {W J : Type 0} → (String → J) → OrderIntent W J → OrderIntent W J
unfolding is_secret
to_public_dict text i = record i {
  metadata = map (λ kv. (kv.0, if is_secret kv.0 then text "[REDACTED]" else kv.1)) i.metadata;
}

-- The rows of the collections "order_intents" and "order_idempotency".
pub data IntentRow (W J : Type 0) : Type 0 where
  document : OrderIntent W J → IntentRow W J
  reference : String → IntentStatus → IntentRow W J

abbrev pub row_intent_id : {W J : Type 0} → IntentRow W J → String
row_intent_id (document i) = i.intent_id
row_intent_id (reference id status) = id

module _ {S W J : Type 0} (d : DurableStore S (IntentRow W J)) where
  open d use {put_json, get_json}

  -- The reference from an idempotency key to its intent.
  abbrev pub refer : String → String → IntentStatus → S → S
  refer key id status s = put_json "order_idempotency" key (reference id status) s

  -- The writes of `persist`.
  unfoldable pub written : (String → J) → OrderIntent W J → S → Result (OrderIntent W J) × S
  written text i s =
      let i' = record i { status = persisted } in
      (
        ok i',
        refer i.idempotency_key i.intent_id persisted
            (put_json "order_intents" i.intent_id (document (to_public_dict text i')) s),
      )

  -- The check of the row under the idempotency key.
  unfoldable pub checked :
      Result (Option (IntentRow W J))
      → (String → J)
      → OrderIntent W J
      → S
      → Result (OrderIntent W J) × S
  unfolding written
  checked (err e) text i s = (err e, s)
  checked (ok none) text i s = written text i s
  checked (ok (some r)) text i s =
      if row_intent_id r == i.intent_id then written text i s else (err duplicate_order_error, s)

  -- OrderIntentLedger.persist
  unfoldable pub persist : (String → J) → OrderIntent W J → S → Result (OrderIntent W J) × S
  unfolding checked
  persist text i s = checked (get_json "order_idempotency" i.idempotency_key s) text i s

  -- The update of the reference; an empty key counts as missing.
  abbrev pub referred : String → String → IntentStatus → S → S
  referred key id status s = if key == "" then s else refer key id status s

  -- The row of `mark` with its new values. A reference under an intent's identifier, which the
  -- ledger never writes, has no idempotency key.
  pub mark_row :
      Result (Option (IntentRow W J))
      → String
      → IntentStatus
      → Option (List String)
      → Option String
      → S
      → Result (IntentRow W J) × S
  mark_row (err e) id status reason_codes exchange_order_id s = (err e, s)
  mark_row (ok none) id status reason_codes exchange_order_id s = (err key_error, s)
  mark_row (ok (some (reference r old))) id status reason_codes exchange_order_id s =
      (ok (reference r status), put_json "order_intents" id (reference r status) s)
  mark_row (ok (some (document i))) id status reason_codes exchange_order_id s =
      let i' = record i {
        status = status;
        reason_codes = get_or reason_codes i.reason_codes;
        exchange_order_id = elim exchange_order_id [ none ↦ i.exchange_order_id | some x ↦ some x ];
      } in
      (
        ok (document i'),
        referred i.idempotency_key id status (put_json "order_intents" id (document i') s),
      )

  -- OrderIntentLedger.mark
  unfoldable pub mark :
      String → IntentStatus → Option (List String) → Option String → S → Result (IntentRow W J) × S
  unfolding mark_row
  mark id status reason_codes exchange_order_id s =
      mark_row (get_json "order_intents" id s) id status reason_codes exchange_order_id s

  -- OrderIntentLedger.get
  abbrev pub get : String → S → Result (Option (IntentRow W J))
  get id s = get_json "order_intents" id s

  follow : Result (Option (IntentRow W J)) → S → Result (Option (IntentRow W J))
  follow (err e) s = err e
  follow (ok none) s = ok none
  follow (ok (some r)) s = get (row_intent_id r) s

  -- OrderIntentLedger.find_by_idempotency
  unfoldable pub find_by_idempotency : String → S → Result (Option (IntentRow W J))
  unfolding follow
  find_by_idempotency key s = follow (get_json "order_idempotency" key s) s
