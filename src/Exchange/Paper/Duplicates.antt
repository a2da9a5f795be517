-- ===== src/Exchange/Paper/Duplicates.antt =====
-- A client order identifier is accepted once.
use crypto_trading_mcp.Prelude.{
  ◌≡◌, refl, ap, String, true, eq_iff, Option, some, List, [], ◌∷◌, one_of, arith, get_or,
}
use crypto_trading_mcp.Errors.{ok}
use crypto_trading_mcp.Action.Moves.{IsFrame, Moves}
use crypto_trading_mcp.Float.{Float}
use crypto_trading_mcp.Exchange.Models.{Order}
use crypto_trading_mcp.Exchange.Ids.{Runtime, truthy, ensure_order_id}
use crypto_trading_mcp.Exchange.Paper.State.{
  PaperExchange, put_order, record_api_failure, record_api_success, mark_stale, simulate_failure,
  clear_failure, halt, reset_halt, configure_position_rules,
}
use crypto_trading_mcp.Exchange.Paper.Orders.{
  price_for, screened, stopped, unreachable, reject, received, remembered, refused, create_order,
}
use crypto_trading_mcp.Exchange.Paper.Admission.{
  admission, admission-IsKept, priced-admission, cancel_order-admission, expire_order-admission,
  set_price-admission,
}
use crypto_trading_mcp.Exchange.Paper.Frames.{on_price_update-Moves, end_of_day-Moves}
use crypto_trading_mcp.Exchange.Paper.Calls
use crypto_trading_mcp.Exchange.Paper.Calls.{Call, step, run}
use crypto_trading_mcp.Text.{upper}

module _ {W : Type 0} ⦃f : Float W⦄ (py : Runtime W) where
  -- No client order identifier is forgotten.
  Remembers : PaperExchange W → PaperExchange W → Type 0
  Remembers x y =
      (c : String) → one_of c x.seen_client_ids ≡ true → one_of c y.seen_client_ids ≡ true

  Remembers-frame : IsFrame Remembers
  unfolding Remembers
  Remembers-frame = record { stay = λ x c h. h; chain = λ x y z g h c k. h c (g c k) }

  seen-Remembers : (x y : PaperExchange W) → y.seen_client_ids ≡ x.seen_client_ids → Remembers x y
  unfolding Remembers
  seen-Remembers x y h c k = rw h k

  same-Remembers : (x y : PaperExchange W) → admission y ≡ admission x → Remembers x y
  same-Remembers x y h = seen-Remembers x y (ap (λ a. a.0) h)

  failure-seen : (x : PaperExchange W) → (record_api_failure x).seen_client_ids ≡ x.seen_client_ids
  unfolding record_api_failure
  failure-seen x = ground arith

  screened-seen :
      (o : Order W) (market_price : Option W) (now : String) (x : PaperExchange W)
      → (screened py o market_price now x).1.seen_client_ids ≡ x.seen_client_ids
  unfolding screened stopped unreachable
  screened-seen o market_price now x = ground (
    arith,
    ap (λ a. a.0) (priced-admission py o (price_for py o market_price x) now x),
    failure-seen (put_order (reject py (upper (get_or x.failure_mode "")) o) x),
  )

  received-seen :
      (o : Order W) (x : PaperExchange W) → (received py o x).1.seen_client_ids ≡ x.seen_client_ids
  unfolding received
  received-seen o x = refl

  received-client :
      (o : Order W) (x : PaperExchange W) → (received py o x).0.client_order_id ≡ o.client_order_id
  unfolding received ensure_order_id
  received-client o x = ground arith

  create_order-Moves :
      (o : Order W) (market_price : Option W) (now : String)
      → Moves Remembers (create_order py o market_price now)
  unfolding create_order Remembers
  create_order-Moves o market_price now = record {
    at = λ x c h. ground (
      arith,
      received-seen o x,
      screened-seen (received py o x).0 market_price now
          (remembered py (received py o x).0 (received py o x).1),
    );
  }

  -- Once `create_order` has had an order, its client order identifier is known.
  create_order-knows :
      (o : Order W) (market_price : Option W) (now c : String) (x : PaperExchange W)
      → truthy o.client_order_id ≡ some c
      → one_of c (create_order py o market_price now x).1.seen_client_ids ≡ true
  unfolding create_order
  create_order-knows o market_price now c x h = ground (
    arith,
    eq_iff c c,
    received-seen o x,
    received-client o x,
    screened-seen (received py o x).0 market_price now
        (remembered py (received py o x).0 (received py o x).1),
  )

  simulate_failure-seen :
      (mode : String) (x : PaperExchange W)
      → (simulate_failure mode x).seen_client_ids ≡ x.seen_client_ids
  unfolding simulate_failure record_api_failure
  simulate_failure-seen mode x = ground arith

  halt-seen :
      (reason : String) (x : PaperExchange W) → (halt reason x).seen_client_ids ≡ x.seen_client_ids
  unfolding halt
  halt-seen reason x = ground arith

  step-Moves : (call : Call W) (x : PaperExchange W) → Remembers x (step py call x)
  unfolding step mark_stale clear_failure record_api_success reset_halt configure_position_rules
  step-Moves (Calls.create_order o market_price now) x =
      (create_order-Moves o market_price now).at x
  step-Moves (Calls.cancel_order id now) x = same-Remembers x _ (cancel_order-admission py id now x)
  step-Moves (Calls.expire_order id now) x = same-Remembers x _ (expire_order-admission py id now x)
  step-Moves (Calls.on_price_update symbol price now) x =
      (on_price_update-Moves py Remembers-frame (admission-IsKept py same-Remembers) symbol price
          now).at
        x
  step-Moves (Calls.end_of_day now) x =
      (end_of_day-Moves py Remembers-frame (admission-IsKept py same-Remembers) now).at x
  step-Moves (Calls.set_price symbol price) x =
      same-Remembers x _ (set_price-admission py symbol price x)
  step-Moves (Calls.mark_stale symbol) x = seen-Remembers x _ refl
  step-Moves (Calls.simulate_failure mode) x = seen-Remembers x _ (simulate_failure-seen mode x)
  step-Moves Calls.clear_failure x = seen-Remembers x _ refl
  step-Moves (Calls.halt reason) x = seen-Remembers x _ (halt-seen reason x)
  step-Moves Calls.reset_halt x = seen-Remembers x _ refl
  step-Moves Calls.record_api_success x = seen-Remembers x _ refl
  step-Moves (Calls.configure_position_rules symbol r) x = seen-Remembers x _ refl

  run-Remembers : (x : PaperExchange W) (cs : List (Call W)) → Remembers x (run py x cs)
  unfolding run
  run-Remembers x [] = Remembers-frame.stay x
  run-Remembers x (c ∷ cs) =
      Remembers-frame.chain x _ _ (step-Moves c x) (run-Remembers (step py c x) cs)

  known_refused :
      (o : Order W) (market_price : Option W) (now c : String) (x : PaperExchange W)
      → truthy o.client_order_id ≡ some c
      → one_of c x.seen_client_ids ≡ true
      → create_order py o market_price now x
        ≡ refused py "DUPLICATE_ORDER" (received py o x).0 (received py o x).1
  unfolding create_order
  known_refused o market_price now c x h k = ground (arith, received-seen o x, received-client o x)

  -- A client order identifier is accepted once: after a `create_order` with it, whether that
  -- returned or raised, and after any further calls, another `create_order` with it is refused as a
  -- duplicate, and moves no money and makes no fill and no trade.
  pub duplicate_refused :
      (o later : Order W) (market_price later_price : Option W) (now after c : String)
      (x : PaperExchange W) (cs : List (Call W))
      → truthy o.client_order_id ≡ some c
      → truthy later.client_order_id ≡ some c
      → let y = run py (create_order py o market_price now x).1 cs in
        let (result, z) = create_order py later later_price after y in
        (result ≡ ok (reject py "DUPLICATE_ORDER" (received py later y).0))
        × (z.portfolio ≡ y.portfolio)
        × (z.fills ≡ y.fills)
        × (z.trades ≡ y.trades)
  unfolding Remembers received
  duplicate_refused o later market_price later_price now after c x cs h k =
      let y = run py (create_order py o market_price now x).1 cs in
      let known = run-Remembers _ cs c (create_order-knows o market_price now c x h) in
      rw (known_refused later later_price after c y k known) (refl, refl, refl, refl)
