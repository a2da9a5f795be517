-- ===== src/Reconciliation/Service.antt =====
-- crypto_trading_mcp/reconciliation/service.py: `ExchangeReconciliationService`, which compares the
-- local snapshot with the one of the venue. The JSON values of a snapshot, with `None` and `==`, are
-- a parameter, and so is the order in which Python runs through a set. The sink is output only.
pub mod Agreement
use Prim.Native.String.{◌++◌ as join}
use crypto_trading_mcp.Prelude.{
  String, Bool, true, false, ◌||◌, ◌&&◌, not, Option, none, some, List, [], ◌∷◌, ◌++◌, map, is_some,
  non_empty, get_or, if◌then◌else◌,
}
use crypto_trading_mcp.Dict.{Dict, get}
use crypto_trading_mcp.Errors.{Result, ok, err}
use crypto_trading_mcp.Persistence.{DurableStore}
use crypto_trading_mcp.Exchange.Ids.{truthy}

pub data ReconciliationState : Type 0 where
  reconciled drift_detected reconciliation_failed exchange_unavailable : ReconciliationState

-- What a result says, and what `status` falls back to.
pub record Reconciliation : Type 0 where
  pub state : ReconciliationState
  pub healthy : Bool
  pub allows_new_live_orders : Bool
  pub timestamp : String
  pub error : Option String
  pub drifts : List String

-- A snapshot: its entry "position_details", which is empty where it is missing, and the others.
pub record Snapshot (J : Type 0) : Type 0 where
  pub fields : Dict J
  pub position_details : Dict (Dict J)

pub record Json (J : Type 0) : Type 0 where
  -- None, and ==
  pub null : J
  pub same : J → J → Bool
  -- The elements of the set of these texts, in the order in which Python runs through it.
  pub through : List String → List String

abbrev pub compared_fields : List String
compared_fields =
    "balances" ∷ "available_balances" ∷ "positions" ∷ "open_orders" ∷ "fills" ∷ "realized_pnl"
    ∷ "unrealized_pnl" ∷ []

module _ {J : Type 0} (json : Json J) where
  open json use {null, same, through}

  -- d.get(k)
  abbrev pub value : String → Dict J → J
  value k d = get_or (get k d) null

  -- The loop over the fields.
  unfoldable pub field_drifts : List String → Dict J → Dict J → List String
  field_drifts [] local exchange = []
  field_drifts (k ∷ ks) local exchange =
      let rest = field_drifts ks local exchange in
      if (is_some (get k local) || is_some (get k exchange))
        && not (same (value k local) (value k exchange))
      then k ∷ rest
      else rest

  -- `details.get(symbol) or {}`, then its entry `k`.
  abbrev pub detail : String → String → Dict (Dict J) → J
  detail k symbol details = value k (get_or (get symbol details) [])

  -- The loop over the symbols.
  unfoldable pub position_drifts : List String → Dict (Dict J) → Dict (Dict J) → List String
  position_drifts [] local exchange = []
  position_drifts (s ∷ ss) local exchange =
      (if same (detail "quantity" s local) (detail "quantity" s exchange)
        then []
        else join "position_qty:" s ∷ [])
      ++ (if same (detail "avg_entry" s local) (detail "avg_entry" s exchange)
          then []
          else join "avg_entry:" s ∷ [])
      ++ position_drifts ss local exchange

  abbrev pub drifts_of : Snapshot J → Snapshot J → List String
  drifts_of local exchange =
      field_drifts compared_fields local.fields exchange.fields
      ++ position_drifts
          (through
            (map (λ kv. kv.0) local.position_details ++ map (λ kv. kv.0) exchange.position_details))
          local.position_details exchange.position_details

  -- The result that `compare` makes, at an error of the venue that is not empty.
  unfoldable pub judged : Snapshot J → Option (Snapshot J) → Option String → String → Reconciliation
  judged local exchange (some e) now = record {
    state = exchange_unavailable;
    healthy = false;
    allows_new_live_orders = false;
    timestamp = now;
    error = some e;
    drifts = [];
  }
  judged local none none now = record {
    state = reconciliation_failed;
    healthy = false;
    allows_new_live_orders = false;
    timestamp = now;
    error = some "missing_exchange_snapshot";
    drifts = [];
  }
  judged local (some there) none now =
      let found = drifts_of local there in
      record {
        state = if non_empty found then drift_detected else reconciled;
        healthy = not (non_empty found);
        allows_new_live_orders = not (non_empty found);
        timestamp = now;
        error = none;
        drifts = found;
      }

-- The service: its store and `last`.
pub record Service (S : Type 0) : Type 0 where
  pub store : S
  pub last : Option Reconciliation

abbrev pub never_reconciled : Reconciliation
never_reconciled = record {
  state = reconciliation_failed;
  healthy = false;
  allows_new_live_orders = false;
  timestamp = "";
  error = none;
  drifts = [];
}

-- `self.store.get_json(…) or self.last or {…}`
abbrev pub latest_or :
    Option Reconciliation → Result (Option Reconciliation) → Result Reconciliation
latest_or last (err e) = err e
latest_or last (ok none) = ok (get_or last never_reconciled)
latest_or last (ok (some latest)) = ok latest

module _ {S : Type 0} (d : DurableStore S Reconciliation) where
  open d use {put_json, get_json}

  -- ExchangeReconciliationService._persist
  unfoldable pub persist : Reconciliation → Service S → Reconciliation × Service S
  persist result s =
      let keyed = put_json "reconciliation" result.timestamp result s.store in
      (
        result,
        record { store = put_json "reconciliation" "latest" result keyed; last = some result },
      )

  -- ExchangeReconciliationService.compare
  unfoldable pub compare :
      {J : Type 0}
      → Json J
      → Snapshot J
      → Option (Snapshot J)
      → Option String
      → String
      → Service S
      → Reconciliation × Service S
  compare json local exchange exchange_error now s =
      persist (judged json local exchange (truthy exchange_error) now) s

  -- ExchangeReconciliationService.status
  unfoldable pub status : Service S → Result Reconciliation
  status s = latest_or s.last (get_json "reconciliation" "latest" s.store)
