-- ===== src/Exchange/Paper/Admission.antt =====
-- What only `create_order`, the failures and the halts change: the client order identifiers that
-- are known, and the halt.
use crypto_trading_mcp.Prelude.{
  ◌≡◌, refl, ◌∙◌, String, Bool, true, false, Option, none, some, List, arith,
}
use crypto_trading_mcp.Errors.{PyError, Result, ok, err}
use crypto_trading_mcp.Float.{Float}
use crypto_trading_mcp.Exchange.Models.{Order}
use crypto_trading_mcp.Exchange.Ids.{Runtime}
use crypto_trading_mcp.Portfolio.Manager.{Position}
use crypto_trading_mcp.Exchange.Paper.State.{
  PaperExchange, emit, put_order, order_submitted, set_price,
}
use crypto_trading_mcp.Exchange.Paper.Exits.{
  exit_position, closing, reported, record_trade_close, break_even, take_partial, trail_stop,
}
use crypto_trading_mcp.Exchange.Paper.Orders.{
  price_or, routed, submit, priced, cancel_order, expire_order,
}
use crypto_trading_mcp.Exchange.Paper.Frames.{IsKept}
use crypto_trading_mcp.Exchange.Paper.Session.{close_day}
use crypto_trading_mcp.Exchange.Paper.Fills.{
  Quote, failed, recorded, record_trade, fill_market, settled, protect, noted,
}

abbrev pub admission : {W : Type 0} → PaperExchange W → List String × Bool
admission x = (x.seen_client_ids, x.halted)

module _ {W : Type 0} ⦃f : Float W⦄ (py : Runtime W) where
  pub failed-admission :
      (e : PyError) (now : String) (o : Order W) (x : PaperExchange W)
      → admission (failed py e now o x).1 ≡ admission x
  unfolding failed
  failed-admission e now o x = ground arith

  pub recorded-admission :
      (o : Order W) (q : Quote W) (now : String) (x : PaperExchange W)
      → admission (recorded py o q now x).1 ≡ admission x
  unfolding recorded noted protect
  recorded-admission o q now x = ground arith

  pub record_trade-admission :
      (pnl : Option W) (o : Order W) (q : Quote W) (now : String) (x : PaperExchange W)
      → admission (record_trade py pnl o q now x) ≡ admission x
  unfolding record_trade
  record_trade-admission pnl o q now x = ground arith

  -- Past the booking, whatever it said.
  pub settled-admission :
      (r : Result (Option W)) (o : Order W) (q : Quote W) (now : String) (x : PaperExchange W)
      → admission (settled py r o q now x).1 ≡ admission x
  unfolding settled
  settled-admission (ok pnl) o q now x =
      recorded-admission o q now (record_trade py pnl o q now x)
      ∙ record_trade-admission pnl o q now x
  settled-admission (err e) o q now x = failed-admission e now o x

  pub fill_market-admission :
      (o : Order W) (price : W) (limit_fill : Bool) (now : String) (x : PaperExchange W)
      → admission (fill_market py o price limit_fill now x).1 ≡ admission x
  unfolding fill_market
  fill_market-admission o price limit_fill now x = settled-admission _ o _ now _

  pub exit_position-admission :
      (symbol : String) (price : W) (reason now : String) (x : PaperExchange W)
      → admission (exit_position py symbol price reason now x).1 ≡ admission x
  unfolding exit_position closing reported record_trade_close
  exit_position-admission symbol price reason now x = ground arith

  pub break_even-admission :
      (sym : String) (p : Position W) (price : W) (x : PaperExchange W)
      → admission (break_even py sym p price x) ≡ admission x
  unfolding break_even
  break_even-admission sym p price x = ground arith

  pub take_partial-admission :
      (symbol sym : String) (p : Position W) (price : W) (now : String) (x : PaperExchange W)
      → admission (take_partial py symbol sym p price now x).1 ≡ admission x
  unfolding take_partial closing
  take_partial-admission symbol sym p price now x = ground arith

  pub trail_stop-admission :
      (symbol sym : String) (p : Position W) (price : W) (x : PaperExchange W)
      → admission (trail_stop py symbol sym p price x) ≡ admission x
  unfolding trail_stop
  trail_stop-admission symbol sym p price x = ground arith

  pub set_price-admission :
      (symbol : String) (price : W) (x : PaperExchange W)
      → admission (set_price symbol price x) ≡ admission x
  unfolding set_price
  set_price-admission symbol price x = refl

  pub cancel_order-admission :
      (id now : String) (x : PaperExchange W) → admission (cancel_order id now x).1 ≡ admission x
  unfolding cancel_order
  cancel_order-admission id now x = ground arith

  pub expire_order-admission :
      (id now : String) (x : PaperExchange W) → admission (expire_order id now x).1 ≡ admission x
  unfolding expire_order
  expire_order-admission id now x = ground arith

  routed-admission :
      (o : Order W) (price : W) (now : String) (x : PaperExchange W)
      → admission (routed py o price now x).1 ≡ admission x
  unfolding routed
  routed-admission o price now x = ground (
    arith,
    fill_market-admission o price false now x,
    fill_market-admission o (price_or o.limit_price price) true now x,
  )

  submit-admission :
      (o : Order W) (price : W) (now : String) (x : PaperExchange W)
      → admission (submit py o price now x).1 ≡ admission x
  unfolding submit
  submit-admission o price now x = elim_sent _ _
    where
      elim_sent :
          (r : Result (Unit {0})) (sent : Order W)
          → admission
              (elim r as (λ r. Result (Order W) × PaperExchange W) [
                | err e ↦ (err e, x)
                | ok u ↦
                    routed py sent price now
                      (emit (order_submitted sent.order_id sent.symbol) (put_order sent x))
              ]).1
            ≡ admission x
      elim_sent (ok u) sent = routed-admission sent price now _
      elim_sent (err e) sent = refl

  pub priced-admission :
      (o : Order W) (price : Option W) (now : String) (x : PaperExchange W)
      → admission (priced py o price now x).1 ≡ admission x
  unfolding priced
  priced-admission o none now x = refl
  priced-admission o (some price) now x = ground (arith, submit-admission o price now x)

  -- A relation that holds where the admission is the same.
  pub admission-IsKept :
      {R : PaperExchange W → PaperExchange W → Type 0}
      → ((x y : PaperExchange W) → admission y ≡ admission x → R x y)
      → IsKept py R
  unfolding close_day
  admission-IsKept h = record {
    fill = λ o price limit_fill now. record {
      at = λ x. h x _ (fill_market-admission o price limit_fill now x);
    };
    exit = λ symbol price reason now. record {
      at = λ x. h x _ (exit_position-admission symbol price reason now x);
    };
    even = λ sym p price x. h x _ (break_even-admission sym p price x);
    partial = λ symbol sym p price now. record {
      at = λ x. h x _ (take_partial-admission symbol sym p price now x);
    };
    trail = λ symbol sym p price x. h x _ (trail_stop-admission symbol sym p price x);
    marked = λ sym p price x at. h x _ refl;
    event = λ e x. h x _ refl;
    price = λ symbol price x. h x _ (set_price-admission symbol price x);
    cancel = λ id now. record { at = λ x. h x _ (cancel_order-admission id now x) };
    day = λ cancelled closed x. h x _ refl;
  }
