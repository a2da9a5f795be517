-- ===== src/Exchange/Paper/Bounds.antt =====
-- The price at which the paper exchange fills a prediction contract.
use crypto_trading_mcp.Prelude.{
  ◌≡◌, ◌⊎◌, inl, inr, refl, ap, ◌∙◌, String, Bool, true, false, Option, none, some, [], ◌∷◌, ◌++◌,
  arith,
}
use crypto_trading_mcp.Errors.{PyError, Result, ok, err}
use crypto_trading_mcp.Float.{Float, ◌<=◌, nought}
use crypto_trading_mcp.Float.Laws.{IsOrdered, IsMonotone}
use crypto_trading_mcp.Exchange.Models
use crypto_trading_mcp.Exchange.Models.{Order, Fill}
use crypto_trading_mcp.Exchange.Ids.{Runtime, ensure_fill_id}
use crypto_trading_mcp.Exchange.Costs.Bounds.{apply_prediction_bounds}
use crypto_trading_mcp.Exchange.Paper.State.{PaperExchange}
use crypto_trading_mcp.Exchange.Paper.Fills.{
  Quote, priced, quote, booked, failed, recorded, record_trade, settled, fill_of, fill_market,
  protect, noted,
}

module _ {W : Type 0} ⦃f : Float W⦄ where
  -- A price between 0 and 1.
  abbrev pub IsProbability : W → Type 0
  IsProbability price = ((nought <= price) ≡ true) × ((price <= f.dec 1 0) ≡ true)

  -- The fill at its limit is made at that limit, and any other at the price after slippage.
  quote-IsProbability :
      IsOrdered W
      → IsMonotone W
      → (o : Order W) (p : W) (limit_fill : Bool) (x : PaperExchange W) (limit : Option W)
      → o.instrument_type ≡ Models.prediction_contract
      → o.limit_price ≡ limit
      → ((l : W) → limit_fill ≡ true → limit ≡ some l → IsProbability l)
      → IsProbability (quote o p limit_fill x).fill_price
  unfolding quote priced
  quote-IsProbability ord m o p true x (some l) k e h = rw e (h l refl refl)
  quote-IsProbability ord m o p true x none k e h =
      rw (k, e) (apply_prediction_bounds ord m x.slippage_engine _ p _ _ _)
  quote-IsProbability ord m o p false x limit k e h =
      rw k (apply_prediction_bounds ord m x.slippage_engine _ p _ _ _)

module _ {W : Type 0} ⦃f : Float W⦄ (py : Runtime W) where
  record_trade-fills :
      (pnl : Option W) (o : Order W) (q : Quote W) (now : String) (x : PaperExchange W)
      → (record_trade py pnl o q now x).fills ≡ x.fills
  unfolding record_trade
  record_trade-fills none o q now x = refl
  record_trade-fills (some pnl) o q now x = refl

  noted-fills :
      (r : Result (Unit {0}) × Order W) (q : Quote W) (fill : Fill W) (x : PaperExchange W)
      → (noted py r q fill x).1.fills ≡ x.fills
  unfolding noted protect
  noted-fills (err e, o) q fill x = refl
  noted-fills (ok u, o) q fill x = ground arith

  failed-fills :
      (e : PyError) (now : String) (o : Order W) (x : PaperExchange W)
      → (failed py e now o x).1.fills ≡ x.fills
  unfolding failed
  failed-fills e now o x = ground arith

  fill_price_lem :
      (o : Order W) (q : Quote W) (x : PaperExchange W)
      → (fill_of py o q x).fill_price ≡ q.fill_price
  unfolding ensure_fill_id
  fill_price_lem o q x = ground arith

  -- The exchange reports no fill, or one more, at the price of the quote.
  abbrev pub IsFilled : (W → Type 0) → PaperExchange W → PaperExchange W → Type 0
  IsFilled P x x' =
      (x'.fills ≡ x.fills)
      ⊎ ((fill : Fill W) × (x'.fills ≡ x.fills ++ fill ∷ []) × P fill.fill_price)

  settled-IsFilled :
      (r : Result (Option W)) (o : Order W) (q : Quote W) (now : String) (x : PaperExchange W)
      (P : W → Type 0)
      → P q.fill_price
      → IsFilled P x (settled py r o q now x).1
  unfolding settled recorded
  settled-IsFilled (ok pnl) o q now x P h =
      let traded = record_trade py pnl o q now x in
      let fill = fill_of py o q traded in
      inr (
        fill,
        noted-fills _ q fill _ ∙ ap (λ fs. fs ++ fill ∷ []) (record_trade-fills pnl o q now x),
        rw (fill_price_lem o q traded) h,
      )
  settled-IsFilled (err e) o q now x P h = inl (failed-fills e now o x)

  -- A call of `_fill_market` for an order on a prediction contract adds at most one fill, and that
  -- one is at a price between 0 and 1, whatever the market price, NaN included, provided that a
  -- limit at which it fills lies there itself: the exchange does not clamp a limit.
  pub fill_market-IsProbability :
      IsOrdered W
      → IsMonotone W
      → (o : Order W) (p : W) (limit_fill : Bool) (now : String) (x : PaperExchange W)
      → o.instrument_type ≡ Models.prediction_contract
      → ((l : W) → limit_fill ≡ true → o.limit_price ≡ some l → IsProbability l)
      → IsFilled IsProbability x (fill_market py o p limit_fill now x).1
  unfolding fill_market
  fill_market-IsProbability ord m o p limit_fill now x k h =
      let q = quote o p limit_fill x in
      let (r, portfolio) = booked o q now x.portfolio in
      settled-IsFilled r o q now (record x { portfolio = portfolio }) IsProbability
        (quote-IsProbability ord m o p limit_fill x o.limit_price k refl h)
