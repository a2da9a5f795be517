-- ===== src/Exchange/Paper/Halts.antt =====
-- A halted exchange takes no order until the halt is reset.
use crypto_trading_mcp.Prelude.{
  ◌≡◌, refl, ◌∙◌, ap, String, Bool, true, false, Option, none, some, List, [], ◌∷◌, arith,
  if◌then◌else◌, any,
}
use crypto_trading_mcp.Errors.{Result, ok}
use crypto_trading_mcp.Action.Moves.{IsFrame}
use crypto_trading_mcp.Float.{Float}
use crypto_trading_mcp.Exchange.Models
use crypto_trading_mcp.Exchange.Models.{Order, Fill}
use crypto_trading_mcp.Exchange.Ids.{Runtime, truthy}
use crypto_trading_mcp.Exchange.Paper.State.{
  PaperExchange, mark_stale, record_api_failure, record_api_success, simulate_failure,
  clear_failure, halt, configure_position_rules,
}
use crypto_trading_mcp.Exchange.Paper.Orders.{
  create_order, received, remembered, refused, screened, stopped, is_duplicate,
}
use crypto_trading_mcp.Exchange.Paper.Admission.{
  admission, admission-IsKept, cancel_order-admission, expire_order-admission, set_price-admission,
}
use crypto_trading_mcp.Exchange.Paper.Frames.{on_price_update-Moves, end_of_day-Moves}
use crypto_trading_mcp.Exchange.Paper.Calls
use crypto_trading_mcp.Exchange.Paper.Calls.{Call, step, run}

module _ {W : Type 0} ⦃f : Float W⦄ (py : Runtime W) where
  -- A halt is not lifted.
  StaysHalted : PaperExchange W → PaperExchange W → Type 0
  StaysHalted x y = x.halted ≡ true → y.halted ≡ true

  StaysHalted-frame : IsFrame StaysHalted
  unfolding StaysHalted
  StaysHalted-frame = record { stay = λ x h. h; chain = λ x y z g h k. h (g k) }

  same-StaysHalted : (x y : PaperExchange W) → admission y ≡ admission x → StaysHalted x y
  unfolding StaysHalted
  same-StaysHalted x y h k = ap (λ a. a.1) h ∙ k

  -- Nothing is booked, filled or traded.
  abbrev pub IsIdle : PaperExchange W → PaperExchange W → Type 0
  IsIdle x y =
      (y.portfolio ≡ x.portfolio)
      × (y.fills ≡ x.fills)
      × (y.trades ≡ x.trades)
      × (y.halted ≡ x.halted)

  abbrev pub IsRejected : PaperExchange W → Result (Order W) × PaperExchange W → Type 0
  IsRejected x t = (o : Order W) × (t.0 ≡ ok o) × (o.status ≡ Models.rejected) × IsIdle x t.1

  stopped-IsRejected :
      (o : Order W) (now : String) (x : PaperExchange W) → IsRejected x (stopped py o now x)
  unfolding stopped
  stopped-IsRejected o now x = (_, refl, refl, (refl, refl, refl, refl))

  refused-IsRejected :
      (reason : String) (o : Order W) (x : PaperExchange W) → IsRejected x (refused py reason o x)
  refused-IsRejected reason o x = (_, refl, refl, (refl, refl, refl, refl))

  screened-halted :
      (o : Order W) (market_price : Option W) (now : String) (x : PaperExchange W)
      → x.halted ≡ true
      → screened py o market_price now x ≡ stopped py o now x
  unfolding screened
  screened-halted o market_price now x h = rw h refl

  duplicate_or_screened :
      (b : Bool) (o : Order W) (market_price : Option W) (now : String) (x y : PaperExchange W)
      → x.halted ≡ true
      → y.halted ≡ true
      → IsIdle x y
      → IsRejected x
          (if b then refused py "DUPLICATE_ORDER" o x else screened py o market_price now y)
  duplicate_or_screened true o market_price now x y h k idle =
      refused-IsRejected "DUPLICATE_ORDER" o x
  duplicate_or_screened false o market_price now x y h k (portfolio, fills, trades, halted) =
      rw (screened-halted o market_price now y k) (
        let (o', same, status, (portfolio', fills', trades', halted')) =
          stopped-IsRejected o now y in
        (
          o',
          same,
          status,
          (portfolio' ∙ portfolio, fills' ∙ fills, trades' ∙ trades, halted' ∙ halted),
        ))

  remembered-IsIdle : (o : Order W) (x : PaperExchange W) → IsIdle x (remembered py o x)
  remembered-IsIdle o x = by_client (truthy o.client_order_id)
    where
      by_client :
          (c : Option String)
          → IsIdle x (elim c as (λ c. PaperExchange W) [
            | none ↦ x
            | some c ↦ record x { seen_client_ids = c ∷ x.seen_client_ids }
          ])
      by_client none = (refl, refl, refl, refl)
      by_client (some c) = (refl, refl, refl, refl)

  create_order-halted :
      (o : Order W) (market_price : Option W) (now : String) (x : PaperExchange W)
      → x.halted ≡ true
      → IsRejected x (create_order py o market_price now x)
  unfolding create_order received
  create_order-halted o market_price now x h =
      let (o', y) = received py o x in
      let (portfolio, fills, trades, halted) = remembered-IsIdle o' y in
      duplicate_or_screened (is_duplicate py o' y) o' market_price now y (remembered py o' y) h
        (halted ∙ h) (portfolio, fills, trades, halted)

  -- The call lifts a halt.
  abbrev pub resets : Call W → Bool
  resets Calls.reset_halt = true
  resets _ = false

  step-StaysHalted :
      (call : Call W) (x : PaperExchange W) → resets call ≡ false → StaysHalted x (step py call x)
  unfolding step StaysHalted mark_stale clear_failure record_api_success configure_position_rules
      halt simulate_failure record_api_failure
  step-StaysHalted (Calls.create_order o market_price now) x k h =
      let (o', same, status, (portfolio, fills, trades, halted)) =
        create_order-halted o market_price now x h in
      halted ∙ h
  step-StaysHalted (Calls.cancel_order id now) x k h =
      ap (λ a. a.1) (cancel_order-admission py id now x) ∙ h
  step-StaysHalted (Calls.expire_order id now) x k h =
      ap (λ a. a.1) (expire_order-admission py id now x) ∙ h
  step-StaysHalted (Calls.on_price_update symbol price now) x k h =
      (on_price_update-Moves py StaysHalted-frame (admission-IsKept py same-StaysHalted) symbol
          price now).at
        x h
  step-StaysHalted (Calls.end_of_day now) x k h =
      (end_of_day-Moves py StaysHalted-frame (admission-IsKept py same-StaysHalted) now).at x h
  step-StaysHalted (Calls.set_price symbol price) x k h =
      ap (λ a. a.1) (set_price-admission py symbol price x) ∙ h
  step-StaysHalted (Calls.mark_stale symbol) x k h = h
  step-StaysHalted (Calls.simulate_failure mode) x k h = ground arith
  step-StaysHalted Calls.clear_failure x k h = h
  step-StaysHalted (Calls.halt reason) x k h = ground arith
  step-StaysHalted Calls.reset_halt x k h = ground arith
  step-StaysHalted Calls.record_api_success x k h = h
  step-StaysHalted (Calls.configure_position_rules symbol r) x k h = h

  run-StaysHalted :
      (x : PaperExchange W) (cs : List (Call W))
      → any resets cs ≡ false
      → StaysHalted x (run py x cs)
  unfolding run StaysHalted
  run-StaysHalted x [] k h = h
  run-StaysHalted x (c ∷ cs) k h =
      run-StaysHalted (step py c x) cs (ground arith) (step-StaysHalted c x (ground arith) h)

  -- A halted exchange takes no order until the halt is reset: after any calls but `reset_halt`, a
  -- `create_order` comes back rejected, and the portfolio, the fills, the trades and the halt are
  -- as before it.
  pub halted_rejects :
      (o : Order W) (market_price : Option W) (now : String) (x : PaperExchange W)
      (cs : List (Call W))
      → x.halted ≡ true
      → any resets cs ≡ false
      → IsRejected (run py x cs) (create_order py o market_price now (run py x cs))
  unfolding StaysHalted
  halted_rejects o market_price now x cs h k =
      create_order-halted o market_price now (run py x cs) (run-StaysHalted x cs k h)
