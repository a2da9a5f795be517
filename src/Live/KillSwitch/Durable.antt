-- ===== src/Live/KillSwitch/Durable.antt =====
-- A kill switch that has fired blocks new trades through restarts, until an operator clears it.
use Prim.Native.String.{◌++◌ as join, compare}
use Prim.Native.String.compare.{cons-cons}
use text.Mathlib.Text.{is_eq}
use text.Mathlib.TextLemmas.{cons-append}
use crypto_trading_mcp.Prelude.{
  String, ◌≡◌, refl, Bool, true, false, ◌==◌, ap, ◌∙◌, Option, none, some, List, [], ◌∷◌,
}
use crypto_trading_mcp.Errors.{Result, ok, err}
use crypto_trading_mcp.Persistence.{DurableStore}
use crypto_trading_mcp.Risk.Config
use crypto_trading_mcp.Risk.Config.{KillSwitch}
use crypto_trading_mcp.Live.KillSwitch.{
  KillRow, state, Canceller, DurableKillSwitch, start, activate, deactivate, cleared, allows_row,
  allows_new_trades,
}

-- What happens to the switch: a process is killed and started again, an activation at a time of
-- the clock, or an attempt to deactivate. A start that raises leaves the store as it is, and what is
-- asked before the next start is answered as by the switch before it.
pub data Event : Type 0 where
  restart : Event
  activation : String → Option Canceller → String → Event
  deactivation : Bool → Event

abbrev pub not_cleared : List Event → Bool
not_cleared [] = true
not_cleared (deactivation true ∷ es) = false
not_cleared (e ∷ es) = not_cleared es

module _ {S : Type 0} (d : DurableStore S KillRow) where
  restarted : DurableKillSwitch S → Result (DurableKillSwitch S) → DurableKillSwitch S
  restarted k (ok k') = k'
  restarted k (err e) = k

  pub step : Event → DurableKillSwitch S → DurableKillSwitch S
  unfolding restarted
  step restart k = restarted k (start d k.store)
  step (activation reason canceller now) k = activate d reason canceller now k
  step (deactivation operator) k = (deactivate d operator k).1

  pub drive : DurableKillSwitch S → List Event → DurableKillSwitch S
  unfolding step
  drive k [] = k
  drive k (e ∷ es) = drive (step e k) es

  -- The stored state says that the switch is active.
  Stored : DurableKillSwitch S → Type 0
  Stored k =
      (reason : Option String) × (d.get_json "kill_switch" "state" k.store
        ≡ ok (some (state true reason)))

  event_key : (now : String) → (join "event:" now == "state") ≡ false
  event_key now =
      ap (λ s. is_eq (compare s "state")) (cons-append "e" "vent:" now)
      ∙ ap is_eq (cons-cons "e" "s" (join "vent:" now) "tate")

  activate-Stored :
      (reason : String) (c : Option Canceller) (now : String) (k : DurableKillSwitch S)
      → Stored (activate d reason c now k)
  unfolding activate Stored
  activate-Stored reason c now k = (some reason, simp (d.get-put, event_key now))

  restart-store :
      (k : DurableKillSwitch S) (r : Result KillSwitch)
      → (restarted k (elim r as (λ r. Result (DurableKillSwitch S)) [
        | err e ↦ err e
        | ok base ↦
            ok (record {
              store = k.store;
              inner = record { base = base; last_cancel_result = none };
            })
      ])).store
        ≡ k.store
  unfolding restarted
  restart-store k (err e) = refl
  restart-store k (ok base) = refl

  -- Every event but an authorized deactivation keeps the stored state active.
  step-Stored :
      (e : Event) (k : DurableKillSwitch S)
      → not_cleared (e ∷ []) ≡ true
      → Stored k
      → Stored (step e k)
  unfolding step restarted Stored start deactivate cleared Config.deactivate
  step-Stored restart k _ (reason, row) =
      (reason, ap (d.get_json "kill_switch" "state") (restart-store k _) ∙ row)
  step-Stored (activation reason c now) k _ _ = activate-Stored reason c now k
  step-Stored (deactivation false) k _ held = held
  step-Stored (deactivation true) k h _ = cc h

  drive-Stored :
      (es : List Event) (k : DurableKillSwitch S)
      → not_cleared es ≡ true
      → Stored k
      → Stored (drive k es)
  unfolding drive
  drive-Stored [] k _ held = held
  drive-Stored (restart ∷ es) k h held = drive-Stored es _ h (step-Stored restart k refl held)
  drive-Stored (activation reason c now ∷ es) k h held =
      drive-Stored es _ h (step-Stored (activation reason c now) k refl held)
  drive-Stored (deactivation false ∷ es) k h held =
      drive-Stored es _ h (step-Stored (deactivation false) k refl held)
  drive-Stored (deactivation true ∷ es) k h _ = cc h

  Stored-blocks : (k : DurableKillSwitch S) → Stored k → allows_new_trades d k ≡ false
  unfolding Stored allows_new_trades allows_row
  Stored-blocks k (reason, row) = rw (row) refl

  -- After an activation, whatever the state was and however the cancelling of orders went, no new
  -- trade is allowed until an operator clears the switch: not after restarts, not after attempts
  -- to deactivate it without authorization.
  pub activate_blocks :
      (reason : String) (c : Option Canceller) (now : String) (k : DurableKillSwitch S)
      (es : List Event)
      → not_cleared es ≡ true
      → allows_new_trades d (drive (activate d reason c now k) es) ≡ false
  activate_blocks reason c now k es h =
      Stored-blocks _ (drive-Stored es _ h (activate-Stored reason c now k))
