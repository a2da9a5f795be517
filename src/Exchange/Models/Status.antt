-- ===== src/Exchange/Models/Status.antt =====
-- What ORDER_TRANSITIONS guarantees of an order's status.
use crypto_trading_mcp.Prelude.{
  ◌↔◌, Bool-cases, inl, inr, sym, ap, ◌∙◌, ℕ, ◌≤◌, String, ◌≡◌, refl, Bool, true, false, List, [],
  ◌∷◌, arith, all, ltb,
}
use crypto_trading_mcp.Errors.{ok}
use crypto_trading_mcp.Machine.{contains, all-contains}
use crypto_trading_mcp.Exchange.Models.{
  OrderStatus, OrderStatus-discrete, order_transitions, Order, transition, created, validated,
  submitted, partially_filled, filled, cancelled, rejected, expired,
}

abbrev pub is_terminal : OrderStatus → Bool
is_terminal filled = true
is_terminal cancelled = true
is_terminal rejected = true
is_terminal expired = true
is_terminal _ = false

-- The progress of an order: a step of `transition` never lowers it.
abbrev pub progress : OrderStatus → ℕ
progress created = 0
progress validated = 1
progress submitted = 2
progress partially_filled = 3
progress _ = 4

progress-edges :
    (s : OrderStatus) → all (λ t. ltb (progress s) (progress t)) (order_transitions s) ≡ true
unfolding order_transitions
progress-edges created = refl
progress-edges _ = refl

no_targets :
    (s t : OrderStatus)
    → is_terminal s ≡ true
    → contains OrderStatus-discrete t (order_transitions s) ≡ false
unfolding contains order_transitions
no_targets filled t h = refl
no_targets _ t h = ground arith

module _ {W : Type 0} where
  -- Calls of `transition` at clock readings, whose exceptions the caller survives.
  unfoldable pub drive : Order W → List (String × OrderStatus) → Order W
  drive o [] = o
  drive o ((now, t) ∷ calls) = drive (transition now t o).1 calls

  transition-progress :
      (now : String) (t : OrderStatus) (o : Order W)
      → progress o.status ≤ progress (transition now t o).1.status
  unfolding transition
  transition-progress now t o = ground (
    arith,
    all-contains OrderStatus-discrete (λ x. ltb (progress o.status) (progress x)) t
        (order_transitions o.status) (progress-edges o.status),
  )

  transition_terminal :
      (now : String) (t : OrderStatus) (o : Order W)
      → is_terminal o.status ≡ true
      → (transition now t o).1 ≡ o
  unfolding transition
  transition_terminal now t o h = ground (arith, no_targets o.status t h)

  -- Whatever transitions are asked for, and whichever of them raise, an order never goes back.
  pub drive-progress :
      (o : Order W) (calls : List (String × OrderStatus))
      → progress o.status ≤ progress (drive o calls).status
  unfolding drive
  drive-progress o [] = omega arith
  drive-progress o ((now, t) ∷ calls) =
      omega (arith, transition-progress now t o, drive-progress (transition now t o).1 calls)

  -- Calls of `Order.transition`, whichever they are, leave a filled, cancelled, rejected or expired
  -- order exactly as it is.
  drive_terminal :
      (o : Order W) (calls : List (String × OrderStatus))
      → is_terminal o.status ≡ true
      → drive o calls ≡ o
  unfolding drive
  drive_terminal o [] h = refl
  drive_terminal o ((now, t) ∷ calls) h =
      rw (transition_terminal now t o h) (drive_terminal o calls h)

  -- Every order that is not yet terminal can be cancelled.
  pub transition-cancelled :
      (now : String) (o : Order W)
      → is_terminal o.status ≡ false
      → ((transition now cancelled o).0 ≡ ok tt)
        × ((transition now cancelled o).1.status ≡ cancelled)
  unfolding transition contains order_transitions OrderStatus-discrete
  transition-cancelled now o h = ground arith

  -- A filled, cancelled, rejected or expired order stays exactly as it is whatever calls of
  -- `Order.transition` are made, and every order that no such calls change is one of these.
  pub drive-terminal_iff :
      (o : Order W)
      → (is_terminal o.status ≡ true) ↔ ((calls : List (String × OrderStatus)) → drive o calls ≡ o)
  unfolding drive
  drive-terminal_iff o = (
    λ h calls. drive_terminal o calls h,
    λ fixed. elim (Bool-cases (is_terminal o.status)) [
      | inl h ↦ h
      | inr h ↦
          let same = fixed (("", cancelled) ∷ []) in
          let (_, gone) = transition-cancelled "" o h in
          ap is_terminal (sym (ap (λ (x : Order W). x.status) same) ∙ gone)
    ],
  )
