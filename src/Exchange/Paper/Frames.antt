-- ===== src/Exchange/Paper/Frames.antt =====
-- What every primitive method of `PaperExchange` keeps, price updates and the end of the day keep.
use crypto_trading_mcp.Prelude.{
  ◌≡◌, refl, String, Bool, true, false, ◌&&◌, ◌||◌, Option, none, some, List, [], ◌∷◌,
  if◌then◌else◌, get_or,
}
use crypto_trading_mcp.Text.{upper}
use crypto_trading_mcp.Dict.{get}
use crypto_trading_mcp.Errors.{Result, ok, err, key_error}
use crypto_trading_mcp.Action.{Action, pure, each, ◌>>=◌}
use crypto_trading_mcp.Action.Moves.{
  IsFrame, Moves, Moves-pure, Moves-if, Moves-bind, Moves-each, if_at,
}
use crypto_trading_mcp.Float.{Float, ◌<=◌, ◌>=◌}
use crypto_trading_mcp.Exchange.Models
use crypto_trading_mcp.Exchange.Models.{Order, OrderType, Fill}
use crypto_trading_mcp.Exchange.Ids.{Runtime}
use crypto_trading_mcp.Portfolio.Manager.{Position, mark}
use crypto_trading_mcp.Exchange.Paper.State.{PaperExchange, Event, emit, set_price, get_open_orders}
use crypto_trading_mcp.Exchange.Paper.Fills.{fill_market}
use crypto_trading_mcp.Exchange.Paper.Orders.{
  price_or, limit_triggered, stop_triggered_at, take_profit_triggered, cancel_order,
}
use crypto_trading_mcp.Exchange.Paper.Exits.{
  is_long_side, is_short_side, position_of, with_position, exit_position, break_even, take_partial,
  exit_reason, trail_stop, revert, protect_position, manage_open_position,
}
use crypto_trading_mcp.Exchange.Paper.Session.{
  triggered, advance, advance_all, on_price_update, cancel_one, flatten, flatten_all, close_day,
  end_of_day, keys,
}

module _ {W : Type 0} ⦃f : Float W⦄ (py : Runtime W) where
  -- The methods that the loops are made of.
  pub record IsKept (R : PaperExchange W → PaperExchange W → Type 0) : Type 0 where
    pub fill :
        (o : Order W) (price : W) (limit_fill : Bool) (now : String)
        → Moves R (fill_market py o price limit_fill now)
    pub exit :
        (symbol : String) (price : W) (reason now : String)
        → Moves R (exit_position py symbol price reason now)
    pub even :
        (sym : String) (p : Position W) (price : W) (x : PaperExchange W)
        → R x (break_even py sym p price x)
    pub partial :
        (symbol sym : String) (p : Position W) (price : W) (now : String)
        → Moves R (take_partial py symbol sym p price now)
    pub trail :
        (symbol sym : String) (p : Position W) (price : W) (x : PaperExchange W)
        → R x (trail_stop py symbol sym p price x)
    pub marked :
        (sym : String) (p : Position W) (price : W) (x : PaperExchange W)
        → position_of sym x ≡ some p
        → R x (with_position sym (mark price p) x)
    pub event : (e : Event W) (x : PaperExchange W) → R x (emit e x)
    pub price : (symbol : String) (price : W) (x : PaperExchange W) → R x (set_price symbol price x)
    pub cancel : (id now : String) → Moves R (cancel_order id now)
    pub day :
        (cancelled : List (Option String)) (closed : List String) (x : PaperExchange W)
        → R x (close_day py cancelled closed x)

module _ {W : Type 0} ⦃f : Float W⦄ (py : Runtime W)
    {R : PaperExchange W → PaperExchange W → Type 0} (frame : IsFrame R) (prims : IsKept py R) where
  revert-Moves :
      (symbol sym : String) (price : W) (now : String) → Moves R (revert py symbol sym price now)
  unfolding revert
  revert-Moves symbol sym price now = record { at = λ x. by_rule x (get sym x.mean_reversion_exit) }
    where
      by_position :
          (x : PaperExchange W) (sma : W) (o : Option (Position W))
          → R x
              (elim o as (λ o. Result (Unit {0}) × PaperExchange W) [
                | none ↦ (ok tt, x)
                | some p ↦
                    if (is_long_side p.side && (price <= sma))
                      || (is_short_side p.side && (price >= sma))
                    then exit_position py symbol price "MEAN_REVERSION_SMA" now x
                    else (ok tt, x)
              ]).1
      by_position x sma none = frame.stay x
      by_position x sma (some p) =
          if_at R x _ _ (ok tt, x) ((prims.exit symbol price "MEAN_REVERSION_SMA" now).at x)
            (frame.stay x)

      by_rule :
          (x : PaperExchange W) (o : Option W)
          → R x
              (elim o as (λ o. Result (Unit {0}) × PaperExchange W) [
                | none ↦ (ok tt, x)
                | some sma ↦ elim (position_of sym x) [
                  | none ↦ (ok tt, x)
                  | some p ↦
                      if (is_long_side p.side && (price <= sma))
                        || (is_short_side p.side && (price >= sma))
                      then exit_position py symbol price "MEAN_REVERSION_SMA" now x
                      else (ok tt, x)
                ]
              ]).1
      by_rule x none = frame.stay x
      by_rule x (some sma) = by_position x sma (position_of sym x)

  protect_position-Moves :
      (symbol sym : String) (price : W) (now : String)
      → Moves R (protect_position py symbol sym price now)
  unfolding protect_position
  protect_position-Moves symbol sym price now = record {
    at = λ x. by_position x (position_of sym x);
  }
    where
      by_reason :
          (x : PaperExchange W) (p : Position W) (r : Option String)
          → R x
              (elim r as (λ r. Result (Unit {0}) × PaperExchange W) [
                | some reason ↦ exit_position py symbol price reason now x
                | none ↦ revert py symbol sym price now (trail_stop py symbol sym p price x)
              ]).1
      by_reason x p none =
          frame.chain x _ _ (prims.trail symbol sym p price x)
            ((revert-Moves symbol sym price now).at _)
      by_reason x p (some reason) = (prims.exit symbol price reason now).at x

      by_position :
          (x : PaperExchange W) (o : Option (Position W))
          → R x
              (elim o as (λ o. Result (Unit {0}) × PaperExchange W) [
                | none ↦ (ok tt, x)
                | some p ↦ elim (exit_reason py p price) [
                  | some reason ↦ exit_position py symbol price reason now x
                  | none ↦ revert py symbol sym price now (trail_stop py symbol sym p price x)
                ]
              ]).1
      by_position x none = frame.stay x
      by_position x (some p) = by_reason x p (exit_reason py p price)

  manage_open_position-Moves :
      (symbol : String) (price : W) (now : String)
      → Moves R (manage_open_position py symbol price now)
  unfolding manage_open_position
  manage_open_position-Moves symbol price now = record {
    at = λ x. by_position x (position_of (upper symbol) x) refl;
  }
    where
      by_position :
          (x : PaperExchange W) (o : Option (Position W))
          → position_of (upper symbol) x ≡ o
          → R x
              (elim o as (λ o. Result (Unit {0}) × PaperExchange W) [
                | none ↦ (ok tt, x)
                | some held ↦
                    (take_partial py symbol (upper symbol) (mark price held) price now >>= λ _.
                    protect_position py symbol (upper symbol) price now)
                      (break_even py
                        (upper symbol)
                        (mark price held)
                        price
                        (with_position (upper symbol) (mark price held) x))
              ]).1
      by_position x none at = frame.stay x
      by_position x (some held) at =
          frame.chain x _ _ (prims.marked (upper symbol) held price x at) (
            frame.chain _ _ _ (prims.even (upper symbol) (mark price held) price _) (
              (Moves-bind frame (take_partial py symbol (upper symbol) (mark price held) price now)
                  (λ _. protect_position py symbol (upper symbol) price now)
                  (prims.partial symbol (upper symbol) (mark price held) price now)
                  (λ _. protect_position-Moves symbol (upper symbol) price now)).at
                _))

  triggered-Moves : (o : Order W) (price : W) (now : String) → Moves R (triggered py o price now)
  unfolding triggered
  triggered-Moves o price now = record {
    at = λ x. frame.chain x _ _ (prims.event _ x) (
        (Moves-bind frame (fill_market py o price false now) _ (prims.fill o price false now)
            (λ o'. Moves-pure frame _)).at
          _);
  }

  advance-Moves : (price : W) (now : String) (o : Order W) → Moves R (advance py price now o)
  unfolding advance
  advance-Moves price now o = by_type o.order_type
    where
      quiet : Moves {A = List (Fill W)} R (pure [])
      quiet = Moves-pure frame []

      by_type :
          (t : OrderType)
          → Moves R (elim t as (λ t. Action (PaperExchange W) (List (Fill W))) [
            | Models.market ↦ pure []
            | Models.limit ↦
                if limit_triggered o price
                then (fill_market py o (price_or o.limit_price price) true now >>= λ o'.
                    pure o'.fills)
                else pure []
            | Models.stop ↦ if stop_triggered_at o price then triggered py o price now else pure []
            | Models.stop_limit ↦
                if stop_triggered_at o price
                then triggered py o (price_or o.limit_price price) now
                else pure []
            | Models.take_profit ↦
                if take_profit_triggered o price then triggered py o price now else pure []
          ])
      by_type Models.market = quiet
      by_type Models.limit =
          Moves-if frame (limit_triggered o price) _ _
            (Moves-bind frame _ (λ o'. pure o'.fills) (prims.fill o _ true now)
              (λ o'. Moves-pure frame _))
            quiet
      by_type Models.stop = Moves-if frame _ _ _ (triggered-Moves o _ now) quiet
      by_type Models.stop_limit = Moves-if frame _ _ _ (triggered-Moves o _ now) quiet
      by_type Models.take_profit = Moves-if frame _ _ _ (triggered-Moves o _ now) quiet

  advance_all-Moves :
      (price : W) (now : String) (os : List (Order W)) → Moves R (advance_all py price now os)
  unfolding advance_all
  advance_all-Moves price now [] = Moves-pure frame []
  advance_all-Moves price now (o ∷ os) =
      Moves-bind frame (advance py price now o) _ (advance-Moves price now o) (λ fills.
        Moves-bind frame (advance_all py price now os) _ (advance_all-Moves price now os)
          (λ rest. Moves-pure frame _))

  pub on_price_update-Moves :
      (symbol : String) (price : W) (now : String) → Moves R (on_price_update py symbol price now)
  unfolding on_price_update
  on_price_update-Moves symbol price now = record {
    at = λ x. frame.chain x _ _ (prims.price symbol price x) (
        (Moves-bind frame
            (advance_all py price now (get_open_orders (some symbol) (set_price symbol price x))) _
            (advance_all-Moves price now _)
            (λ fills.
              Moves-bind frame (manage_open_position py symbol price now) _
                (manage_open_position-Moves symbol price now) (λ _. Moves-pure frame _))).at
          _);
  }

  flatten-Moves : (now symbol : String) → Moves R (flatten py now symbol)
  unfolding flatten
  flatten-Moves now symbol = record { at = λ x. by_position x (get symbol x.portfolio.positions) }
    where
      by_position :
          (x : PaperExchange W) (o : Option (Position W))
          → R x
              (elim o as (λ o. Result (Unit {0}) × PaperExchange W) [
                | none ↦ (err key_error, x)
                | some p ↦
                    exit_position py symbol
                      (get_or (get symbol x.prices) p.current_price)
                      "EOD_FLATTEN"
                      now
                      x
              ]).1
      by_position x none = frame.stay x
      by_position x (some p) = (prims.exit symbol _ "EOD_FLATTEN" now).at x

  flatten_all-Moves : (now : String) → Moves R (flatten_all py now)
  unfolding flatten_all
  flatten_all-Moves now = record {
    at = λ x.
        (Moves-if frame x.flatten_at_eod _ (pure [])
            (Moves-bind frame (each (flatten py now) (keys py x.portfolio.positions))
              (λ _. pure (keys py x.portfolio.positions))
              (Moves-each frame (flatten py now) (keys py x.portfolio.positions)
                (flatten-Moves now))
              (λ _. Moves-pure frame _))
            (Moves-pure frame [])).at
          x;
  }

  pub end_of_day-Moves : (now : String) → Moves R (end_of_day py now)
  unfolding end_of_day cancel_one
  end_of_day-Moves now = record {
    at = λ x.
        (Moves-bind frame (each (cancel_one py now) (get_open_orders none x)) _
            (Moves-each frame (cancel_one py now) _ (λ o.
              Moves-bind frame (cancel_order (get_or o.order_id "") now) _ (prims.cancel _ now)
                (λ _. Moves-pure frame tt)))
            (λ _.
              Moves-bind frame (flatten_all py now) _ (flatten_all-Moves now)
                (λ closed. record { at = λ y. prims.day _ closed y }))).at
          x;
  }
