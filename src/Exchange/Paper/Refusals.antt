-- ===== src/Exchange/Paper/Refusals.antt =====
-- A fill that is refused has moved nothing.
use crypto_trading_mcp.Prelude.{
  ◌≡◌, ◌⊎◌, inl, inr, refl, ap, sym, ◌∙◌, String, Bool, true, false, ◌==◌, eq_iff, Option, none,
  some, List, [], ◌∷◌, one_of, if_some, length, length-append, ◌+◌, arith, if◌then◌else◌,
}
use crypto_trading_mcp.Text.{upper}
use crypto_trading_mcp.Dict.{get}
use crypto_trading_mcp.Errors.{PyError, Result, ok, err}
use crypto_trading_mcp.Action.{continue}
use crypto_trading_mcp.Action.Moves.{continue_error}
use crypto_trading_mcp.Machine.{contains}
use crypto_trading_mcp.Float.{Float, ◌⊕◌, nought}
use crypto_trading_mcp.Exchange.Models
use crypto_trading_mcp.Exchange.Models.{Order, Fill, buys}
use crypto_trading_mcp.Exchange.Ids.{Runtime}
use crypto_trading_mcp.Portfolio.Manager.{Position, PortfolioManager, open_position, close_position}
use crypto_trading_mcp.Portfolio.Manager.Errors.{
  close_position_error, open_position_new_error, open_position_same_error,
}
use crypto_trading_mcp.Exchange.Paper.State.{PaperExchange, put_order}
use crypto_trading_mcp.Exchange.Paper.Fills.{
  Quote, quote, holds, opened, tags_of, booked, failed, recorded, record_trade, settled,
  fill_market, protect, noted, is_full, with_fill, fill_of,
}

module _ {W : Type 0} ⦃f : Float W⦄ where
  -- A position that the exchange has booked, and that `quantity` more does not cancel out.
  abbrev pub IsSound : W → Option (Position W) → Type 0
  IsSound quantity none = Unit {0}
  IsSound quantity (some p) =
      (one_of p.side ("LONG" ∷ "SHORT" ∷ []) ≡ true)
      × (f.same (p.quantity ⊕ quantity) nought ≡ false)

  -- `side` opens at the symbol, or adds to what is held.
  abbrev Opens : String → W → Option (Position W) → Type 0
  Opens side quantity none = Unit {0}
  Opens side quantity (some p) =
      ((upper p.side == upper side) ≡ true) × (f.same (p.quantity ⊕ quantity) nought ≡ false)

  -- What is held, and not on the other side, is held on this one.
  long_Opens :
      (quantity : W) (held : Option (Position W))
      → IsSound quantity held
      → if_some false (λ p. one_of p.side ("SHORT" ∷ "SELL" ∷ [])) held ≡ false
      → Opens "LONG" quantity held
  long_Opens quantity none s h = tt
  long_Opens quantity (some p) (side, n) h = (
    rw ((eq_iff p.side "LONG").0 (ground arith)) ((eq_iff (upper "LONG") (upper "LONG")).1 refl),
    n,
  )

  short_Opens :
      (quantity : W) (held : Option (Position W))
      → IsSound quantity held
      → if_some false (λ p. one_of p.side ("LONG" ∷ "BUY" ∷ [])) held ≡ false
      → Opens "SHORT" quantity held
  short_Opens quantity none s h = tt
  short_Opens quantity (some p) (side, n) h = (
    rw ((eq_iff p.side "SHORT").0 (ground arith)) ((eq_iff (upper "SHORT") (upper "SHORT")).1 refl),
    n,
  )

  holds_at :
      (sides : List String) (symbol : String) (m : PortfolioManager W) (held : Option (Position W))
      → get symbol m.positions ≡ held
      → holds sides symbol m ≡ if_some false (λ p. one_of p.side sides) held
  holds_at sides symbol m held at = ap (if_some false (λ p. one_of p.side sides)) at

  opened_error :
      (side : String) (o : Order W) (q : Quote W) (now : String) (m : PortfolioManager W)
      (held : Option (Position W)) {e : PyError}
      → get o.symbol m.positions ≡ held
      → Opens side q.quantity held
      → (opened side o q now m).0 ≡ err e
      → (opened side o q now m).1 ≡ m
  unfolding opened
  opened_error side o q now m none at s h =
      continue_error (open_position o.symbol side q.quantity q.fill_price q.fee (tags_of o) now m)
        (λ p. none) m
        (λ e' k.
          open_position_new_error o.symbol side q.quantity q.fill_price q.fee (tags_of o) now m at
            k)
        h
  opened_error side o q now m (some p) at (s, n) h =
      continue_error (open_position o.symbol side q.quantity q.fill_price q.fee (tags_of o) now m)
        (λ p. none) m
        (λ e' k.
          open_position_same_error o.symbol side q.quantity q.fill_price q.fee (tags_of o) now m p
            at s n k)
        h

  closed_error :
      (o : Order W) (q : Quote W) (now : String) (m : PortfolioManager W) (k : W → Option W)
      {e : PyError}
      → (continue
          (close_position o.symbol (some q.quantity) q.fill_price q.fee now m)
          (λ pnl m'. (ok (k pnl), m'))).0
        ≡ err e
      → (continue
          (close_position o.symbol (some q.quantity) q.fill_price q.fee now m)
          (λ pnl m'. (ok (k pnl), m'))).1
        ≡ m
  closed_error o q now m k h =
      continue_error (close_position o.symbol (some q.quantity) q.fill_price q.fee now m) k m
        (λ e' h'. close_position_error o.symbol (some q.quantity) q.fill_price q.fee now m h') h

  -- The block under `try`, at what its tests say.
  booked_by :
      Bool
      → Bool
      → Bool
      → Order W
      → Quote W
      → String
      → PortfolioManager W
      → Result (Option W) × PortfolioManager W
  booked_by buy short long o q now m =
      if buy
      then (if short
          then continue (close_position o.symbol (some q.quantity) q.fill_price q.fee now m)
              (λ pnl m'. (ok none, m'))
          else opened "LONG" o q now m)
      else if long
      then continue (close_position o.symbol (some q.quantity) q.fill_price q.fee now m)
          (λ pnl m'. (ok (some pnl), m'))
      else opened "SHORT" o q now m

  booked_by_error :
      (buy short long : Bool) (o : Order W) (q : Quote W) (now : String) (m : PortfolioManager W)
      (held : Option (Position W)) {e : PyError}
      → get o.symbol m.positions ≡ held
      → (short ≡ false → Opens "LONG" q.quantity held)
      → (long ≡ false → Opens "SHORT" q.quantity held)
      → (booked_by buy short long o q now m).0 ≡ err e
      → (booked_by buy short long o q now m).1 ≡ m
  unfolding booked_by
  booked_by_error true true long o q now m held at s l h = closed_error o q now m (λ pnl. none) h
  booked_by_error true false long o q now m held at s l h =
      opened_error "LONG" o q now m held at (s refl) h
  booked_by_error false short true o q now m held at s l h =
      closed_error o q now m (λ pnl. some pnl) h
  booked_by_error false short false o q now m held at s l h =
      opened_error "SHORT" o q now m held at (l refl) h

  -- The booking of a fill raises before it writes.
  booked_error :
      (o : Order W) (q : Quote W) (now : String) (m : PortfolioManager W)
      (held : Option (Position W)) {e : PyError}
      → get o.symbol m.positions ≡ held
      → IsSound q.quantity held
      → (booked o q now m).0 ≡ err e
      → (booked o q now m).1 ≡ m
  unfolding booked booked_by
  booked_error o q now m held at s h =
      booked_by_error (buys o.side) (holds ("SHORT" ∷ "SELL" ∷ []) o.symbol m)
        (holds ("LONG" ∷ "BUY" ∷ []) o.symbol m) o q now m held at
        (λ k.
          long_Opens q.quantity held s
            (sym (holds_at ("SHORT" ∷ "SELL" ∷ []) o.symbol m held at) ∙ k))
        (λ k.
          short_Opens q.quantity held s
            (sym (holds_at ("LONG" ∷ "BUY" ∷ []) o.symbol m held at) ∙ k))
        h

module _ {W : Type 0} ⦃f : Float W⦄ (py : Runtime W) where
  -- The order is filled, in whole or in part, by one more fill.
  abbrev pub IsFilled : PaperExchange W → Order W → PaperExchange W → Type 0
  IsFilled x o y =
      ((o.status ≡ Models.filled) ⊎ (o.status ≡ Models.partially_filled))
      × (length y.fills ≡ length x.fills + 1)

  -- The order is rejected, and nothing else has moved.
  abbrev pub IsRefused : PaperExchange W → Order W → PaperExchange W → Type 0
  IsRefused x o y =
      (o.status ≡ Models.rejected)
      × (y.portfolio ≡ x.portfolio)
      × (y.fills ≡ x.fills)
      × (y.trades ≡ x.trades)

  -- An order comes back, filled or refused.
  abbrev pub Outcome : PaperExchange W → Result (Order W) × PaperExchange W → Type 0
  Outcome x t = (o : Order W) × (t.0 ≡ ok o) × (IsFilled x o t.1 ⊎ IsRefused x o t.1)

  refused_order : PyError → String → Order W → Order W
  refused_order e now o = record o {
    status = Models.rejected;
    reject_reason = some (py.message e);
    updated_at = now;
  }

  failed-submitted :
      (e : PyError) (now : String) (o : Order W) (x : PaperExchange W)
      → o.status ≡ Models.submitted
      → failed py e now o x ≡ (ok (refused_order e now o), put_order (refused_order e now o) x)
  unfolding failed refused_order
  failed-submitted e now o x h = ground arith

  transition-submitted :
      (now : String) (full : Bool) (o : Order W)
      → o.status ≡ Models.submitted
      → let target = if full then Models.filled else Models.partially_filled in
        Models.transition now target o ≡ (ok tt, record o { status = target; updated_at = now })
  unfolding Models.transition Models.order_transitions contains Models.OrderStatus-discrete
  transition-submitted now true o h = ground arith
  transition-submitted now false o h = ground arith

  noted-IsFilled :
      (full : Bool) (now : String) (o : Order W) (q : Quote W) (fill : Fill W) (x : PaperExchange W)
      → let target = if full then Models.filled else Models.partially_filled in
        let (r, y) = noted py (ok tt, record o { status = target; updated_at = now }) q fill x in
        (o' : Order W) × (r ≡ ok o')
        × ((o'.status ≡ Models.filled) ⊎ (o'.status ≡ Models.partially_filled))
        × (y.fills ≡ x.fills)
  unfolding noted protect
  noted-IsFilled true now o q fill x = (_, refl, inl refl, ground arith)
  noted-IsFilled false now o q fill x = (_, refl, inr refl, ground arith)

  recorded-Outcome :
      (o : Order W) (q : Quote W) (now : String) (x : PaperExchange W)
      → o.status ≡ Models.submitted
      → let (r, y) = recorded py o q now x in
        (o' : Order W) × (r ≡ ok o')
        × ((o'.status ≡ Models.filled) ⊎ (o'.status ≡ Models.partially_filled))
        × (length y.fills ≡ length x.fills + 1)
  unfolding recorded
  recorded-Outcome o q now x h =
      rw (transition-submitted now (is_full py (with_fill py q o)) (with_fill py q o) h) (
        let (o', same, status, fills) =
          noted-IsFilled (is_full py (with_fill py q o)) now (with_fill py q o) q (fill_of py o q x)
            _ in
        (o', same, status, rw fills (length-append x.fills _)))

  record_trade-fills :
      (pnl : Option W) (o : Order W) (q : Quote W) (now : String) (x : PaperExchange W)
      → (record_trade py pnl o q now x).fills ≡ x.fills
  unfolding record_trade
  record_trade-fills none o q now x = refl
  record_trade-fills (some pnl) o q now x = refl

  settled-Outcome :
      (r : Result (Option W)) (m : PortfolioManager W) (o : Order W) (q : Quote W) (now : String)
      (x : PaperExchange W)
      → o.status ≡ Models.submitted
      → ((e : PyError) → r ≡ err e → m ≡ x.portfolio)
      → Outcome x (settled py r o q now (record x { portfolio = m }))
  unfolding settled refused_order
  settled-Outcome (ok pnl) m o q now x s h =
      let y = record x { portfolio = m } in
      let (o', same, status, fills) = recorded-Outcome o q now (record_trade py pnl o q now y) s in
      (o', same, inl (status, fills ∙ ap (λ l. length l + 1) (record_trade-fills pnl o q now y)))
  settled-Outcome (err e) m o q now x s h =
      rw (failed-submitted e now o (record x { portfolio = m }) s)
        (refused_order e now o, refl, inr (refl, h e refl, refl, refl))

  -- A submitted order whose symbol is free, or held on a side that the exchange books and in a
  -- quantity that its fill does not cancel out, comes back from `_fill_market`: it is filled, in
  -- whole or in part, and there is one more fill, or it is rejected, and the portfolio, the
  -- fills and the trades are as before.
  pub fill_market-Outcome :
      (o : Order W) (market_price : W) (limit_fill : Bool) (now : String) (x : PaperExchange W)
      (held : Option (Position W))
      → o.status ≡ Models.submitted
      → get o.symbol x.portfolio.positions ≡ held
      → IsSound (quote o market_price limit_fill x).quantity held
      → Outcome x (fill_market py o market_price limit_fill now x)
  unfolding fill_market
  fill_market-Outcome o market_price limit_fill now x held s at sound =
      let q = quote o market_price limit_fill x in
      settled-Outcome (booked o q now x.portfolio).0 (booked o q now x.portfolio).1 o q now x s
        (λ e h. booked_error o q now x.portfolio held at sound h)
