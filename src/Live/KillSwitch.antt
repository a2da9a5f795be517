-- ===== src/Live/KillSwitch.antt =====
-- crypto_trading_mcp/live/kill_switch.py and durable_kill_switch.py: the kill switch with its
-- cancel-all hook, and the one that a durable store carries over a restart.
pub mod Durable
use Prim.Native.String.{◌++◌ as join}
use crypto_trading_mcp.Prelude.{
  String, Bool, true, false, not, Option, none, some, List, [], ◌∷◌, non_empty, get_or,
  if◌then◌else◌,
}
use crypto_trading_mcp.Errors.{Result, ok, err}
use crypto_trading_mcp.Persistence.{DurableStore}
use crypto_trading_mcp.Exchange.Ids.{truthy}
use crypto_trading_mcp.Risk.Config
use crypto_trading_mcp.Risk.Config.{KillSwitch}

-- What a cancel-all of the venue does: the orders cancelled and the failures, or an exception.
abbrev pub Canceller : Type 0
Canceller = Result (List String × List String)

pub record CancelResult : Type 0 where
  pub attempted : Bool
  pub cancelled : List String
  pub failures : List String
  pub failed_code : Bool

-- The cancellation of LiveKillSwitch.activate; `failed_code` is the reason code
-- OPEN_ORDER_CANCELLATION_FAILURE, and an exception counts as one failure.
pub cancel_all : Bool → Option Canceller → CancelResult
cancel_all true (some (ok (cancelled, failures))) = record {
  attempted = true;
  cancelled = cancelled;
  failures = failures;
  failed_code = non_empty failures;
}
cancel_all true (some (err e)) = record {
  attempted = true;
  cancelled = [];
  failures = "exception" ∷ [];
  failed_code = true;
}
cancel_all _ _ = record { attempted = false; cancelled = []; failures = []; failed_code = false }

pub record LiveKillSwitch : Type 0 where
  pub base : KillSwitch
  pub last_cancel_result : Option CancelResult

-- The values of the collection "kill_switch".
pub data KillRow : Type 0 where
  state : Bool → Option String → KillRow
  event : Option String → CancelResult → KillRow

pub record DurableKillSwitch (S : Type 0) : Type 0 where
  pub store : S
  pub inner : LiveKillSwitch

module _ {S : Type 0} (d : DurableStore S KillRow) where
  open d use {put_json, get_json}

  load_row : Result (Option KillRow) → KillSwitch → Result KillSwitch
  load_row (err e) k = err e
  load_row (ok (some (state true reason))) k =
      ok (Config.activate (get_or (truthy reason) "restored") k)
  load_row (ok _) k = ok k

  -- The constructor: a fresh switch, and `_load`, which raises where the store cannot be read.
  pub start : S → Result (DurableKillSwitch S)
  unfolding load_row
  start s =
      elim (load_row (get_json "kill_switch" "state" s)
        (record { active = false; reason = none })) [
          | err e ↦ err e
          | ok base ↦
              ok (record { store = s; inner = record { base = base; last_cancel_result = none } })
        ]

  -- DurableKillSwitch.activate: the inner switch, the cancellation, and `_persist_event`.
  pub activate : String → Option Canceller → String → DurableKillSwitch S → DurableKillSwitch S
  unfolding cancel_all
  activate reason canceller now k =
      let cancelled = cancel_all true canceller in
      record {
        store =
            put_json "kill_switch" (join "event:" now) (event (some reason) cancelled)
              (put_json "kill_switch" "state" (state true (some reason)) k.store);
        inner = record {
          base = Config.activate reason k.inner.base;
          last_cancel_result = some cancelled;
        };
      }

  cleared :
      Result (Unit {0}) × KillSwitch → DurableKillSwitch S → Result (Unit {0}) × DurableKillSwitch S
  cleared (err e, base) k = (err e, k)
  cleared (ok u, base) k = (
    ok u,
    record {
      store = put_json "kill_switch" "state" (state false none) k.store;
      inner = record { base = base; last_cancel_result = k.inner.last_cancel_result };
    },
  )

  -- DurableKillSwitch.deactivate
  pub deactivate : Bool → DurableKillSwitch S → Result (Unit {0}) × DurableKillSwitch S
  unfolding cleared
  deactivate operator_authorized k = cleared (Config.deactivate operator_authorized k.inner.base) k

  -- The reading of the row: an unreadable store allows nothing.
  pub allows_row : Result (Option KillRow) → Bool → Bool
  allows_row (err e) active = false
  allows_row (ok none) active = not active
  allows_row (ok (some (state a reason))) active = not a
  allows_row (ok (some (event reason r))) active = true

  -- DurableKillSwitch.allows_new_trades
  pub allows_new_trades : DurableKillSwitch S → Bool
  unfolding allows_row
  allows_new_trades k = allows_row (get_json "kill_switch" "state" k.store) k.inner.base.active
