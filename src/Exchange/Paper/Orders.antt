-- ===== src/Exchange/Paper/Orders.antt =====
-- The orders of `PaperExchange`: create_order with its refusals, cancel_order, expire_order, and
-- the triggers of resting orders. An order that is passed to `create_order` is a new object, which
-- no other order of the dict shares.
use Prim.Native.String.{◌++◌ as join}
use text.Mathlib.Text.{starts_with}
use crypto_trading_mcp.Prelude.{
  ◌+◌, String, Bool, true, false, ◌&&◌, ◌||◌, not, Option, none, some, List, [], ◌∷◌, one_of,
  if◌then◌else◌, get_or, is_some,
}
use crypto_trading_mcp.Text.{upper, is_blank}
use crypto_trading_mcp.Dict.{get, put}
use crypto_trading_mcp.Errors.{Result, ok, err, key_error}
use crypto_trading_mcp.Float.{Float, ◌<=◌, ◌>=◌, ◌=?◌, nought}
use crypto_trading_mcp.Exchange.Models
use crypto_trading_mcp.Exchange.Models.{Order, OrderStatus, asset_value, buys}
use crypto_trading_mcp.Exchange.Ids.{Runtime, truthy, or_else, ensure_order_id}
use crypto_trading_mcp.Exchange.Paper.State.{
  PaperExchange, order_rejected, order_submitted, order_cancelled, emit, put_order, find_order,
  asset_class_of, record_api_failure,
}
use crypto_trading_mcp.Exchange.Paper.Fills.{fill_market}

abbrev pub is_created : OrderStatus → Bool
is_created Models.created = true
is_created _ = false

-- `self.failure_mode in modes`
abbrev pub fails : {W : Type 0} → List String → PaperExchange W → Bool
fails modes x = elim x.failure_mode [ none ↦ false | some mode ↦ one_of mode modes ]

module _ {W : Type 0} ⦃f : Float W⦄ where
  -- `price or d`: zero counts as false.
  abbrev pub price_or : Option W → W → W
  price_or none d = d
  price_or (some p) d = if p =? nought then d else p

  -- PaperExchange._limit_triggered
  pub limit_triggered : Order W → W → Bool
  limit_triggered o market_price = elim o.limit_price [
    | none ↦ false
    | some limit ↦ if buys o.side then market_price <= limit else market_price >= limit
  ]

  -- PaperExchange._stop_triggered
  pub stop_triggered_at : Order W → W → Bool
  stop_triggered_at o market_price = elim o.stop_price [
    | none ↦ false
    | some stop ↦ if not (buys o.side) then market_price <= stop else market_price >= stop
  ]

  -- PaperExchange._take_profit_triggered
  pub take_profit_triggered : Order W → W → Bool
  take_profit_triggered o market_price =
      elim (elim o.stop_price as (λ x. Option W) [ none ↦ o.limit_price | some s ↦ some s ]) [
        | none ↦ false
        | some trigger ↦
            if not (buys o.side) then market_price >= trigger else market_price <= trigger
      ]

module _ {W : Type 0} ⦃f : Float W⦄ (py : Runtime W) where
  -- A refusal: the status is set without a transition, and the order is kept.
  abbrev pub reject : String → Order W → Order W
  reject reason o = record o { status = Models.rejected; reject_reason = some reason }

  abbrev pub refused : String → Order W → PaperExchange W → Result (Order W) × PaperExchange W
  refused reason o x = let o' = reject reason o in (ok o', put_order o' x)

  -- The first lines of `create_order`.
  unfoldable pub received : Order W → PaperExchange W → Order W × PaperExchange W
  received o x =
      let sequence = x.order_seq + 1 in
      let o' = ensure_order_id py x.session_id sequence o in
      (
        record o' {
          exchange = "paper";
          session_id = some x.session_id;
          instrument_id =
              or_else o'.instrument_id
                (some (join (asset_value (asset_class_of x o.symbol)) (join ":" (upper o.symbol))));
        },
        record x { order_seq = sequence },
      )

  -- A client order identifier that has been seen.
  abbrev pub is_duplicate : Order W → PaperExchange W → Bool
  is_duplicate o x = elim (truthy o.client_order_id) [
    | none ↦ false
    | some c ↦ one_of c x.seen_client_ids
  ]

  abbrev pub remembered : Order W → PaperExchange W → PaperExchange W
  remembered o x = elim (truthy o.client_order_id) [
    | none ↦ x
    | some c ↦ record x { seen_client_ids = c ∷ x.seen_client_ids }
  ]

  -- The branch on the type of the order.
  unfoldable pub routed :
      Order W → W → String → PaperExchange W → Result (Order W) × PaperExchange W
  routed o price now x = elim o.order_type [
    | Models.market ↦ fill_market py o price false now x
    | Models.limit ↦
        if limit_triggered o price
        then fill_market py o (price_or o.limit_price price) true now x
        else (ok o, x)
    | Models.stop ↦ (ok o, x)
    | Models.stop_limit ↦ (ok o, x)
    | Models.take_profit ↦ (ok o, x)
  ]

  -- The submission at a price.
  unfoldable pub submit :
      Order W → W → String → PaperExchange W → Result (Order W) × PaperExchange W
  submit o price now x =
      let o' = record o {
        requested_price = some price;
        instrument_type = asset_class_of x o.symbol;
      } in
      let o'' =
        if is_created o'.status then (Models.transition now Models.validated o').1 else o' in
      let (r, sent) = Models.transition now Models.submitted o'' in
      elim r [
        | err e ↦ (err e, x)
        | ok u ↦
            routed sent price now
              (emit (order_submitted sent.order_id sent.symbol) (put_order sent x))
      ]

  -- The checks of the price.
  unfoldable pub priced :
      Order W → Option W → String → PaperExchange W → Result (Order W) × PaperExchange W
  priced o none now x = refused "NO_MARKET_PRICE" o x
  priced o (some price) now x =
      if price <= nought
      then refused "BAD_PRICE" o x
      else if one_of (upper o.symbol) x.stale_symbols || fails ("stale_market_data" ∷ []) x
      then refused "STALE_MARKET_DATA" o x
      else submit o price now x

  -- `market_price if market_price is not None else self.prices.get(…)`
  abbrev pub price_for : Order W → Option W → PaperExchange W → Option W
  price_for o market_price x = elim market_price [
    | some p ↦ some p
    | none ↦ get (upper o.symbol) x.prices
  ]

  -- Neither in the catalog nor a prediction market.
  abbrev pub unknown_symbol : Order W → PaperExchange W → Bool
  unknown_symbol o x =
      not (is_some (get (upper o.symbol) x.instruments))
      && not (starts_with (upper o.symbol) "PREDICT/")

  -- The refusal of a halted exchange.
  unfoldable pub stopped : Order W → String → PaperExchange W → Result (Order W) × PaperExchange W
  stopped o now x =
      let o' = record (reject (get_or (truthy x.halt_reason) "TRADING_HALTED") o) {
        updated_at = now;
      } in
      (ok o', emit (order_rejected o'.order_id o'.reject_reason) (put_order o' x))

  -- The refusal of an exchange that cannot be reached, which counts as a failure.
  unfoldable pub unreachable : Order W → PaperExchange W → Result (Order W) × PaperExchange W
  unreachable o x =
      let o' = reject (upper (get_or x.failure_mode "")) o in
      (ok o', record_api_failure (put_order o' x))

  -- `create_order` after the check for duplicates.
  unfoldable pub screened :
      Order W → Option W → String → PaperExchange W → Result (Order W) × PaperExchange W
  unfolding stopped unreachable
  screened o market_price now x =
      if x.halted
      then stopped o now x
      else if fails ("timeout" ∷ "rate_limit" ∷ "connection_error" ∷ "exchange_unavailable" ∷ []) x
      then unreachable o x
      else if fails ("rejected_order" ∷ []) x
      then refused "SIMULATED_REJECT" o x
      else if o.quantity <= nought
      then refused "BAD_QUANTITY" o x
      else if unknown_symbol o x && is_blank o.symbol
      then refused "INVALID_INSTRUMENT" o x
      else priced o (price_for o market_price x) now x

  -- PaperExchange.create_order
  unfoldable pub create_order :
      Order W → Option W → String → PaperExchange W → Result (Order W) × PaperExchange W
  create_order o market_price now x =
      let (o', x') = received o x in
      if is_duplicate o' x'
      then refused "DUPLICATE_ORDER" o' x'
      else screened o' market_price now (remembered o' x')

abbrev pub is_final : OrderStatus → Bool
is_final Models.filled = true
is_final Models.cancelled = true
is_final Models.rejected = true
is_final Models.expired = true
is_final _ = false

-- `expire_order` lets an expired order pass the test; the transition is then none.
abbrev is_done : OrderStatus → Bool
is_done Models.filled = true
is_done Models.cancelled = true
is_done Models.rejected = true
is_done _ = false

module _ {W : Type 0} where
  -- PaperExchange.cancel_order
  unfoldable pub cancel_order :
      String → String → PaperExchange W → Result (Order W) × PaperExchange W
  cancel_order order_id now x = elim (find_order order_id x) [
    | none ↦ (err key_error, x)
    | some o ↦
        if is_final o.status
        then (ok o, x)
        else let (r, o') = Models.transition now Models.cancelled o in
          elim r [
            | err e ↦ (err e, x)
            | ok u ↦ (
              ok o',
              emit (order_cancelled o'.order_id) (record x { orders = put order_id o' x.orders }),
            )
          ]
  ]

  -- PaperExchange.expire_order
  unfoldable pub expire_order :
      String → String → PaperExchange W → Result (Order W) × PaperExchange W
  expire_order order_id now x = elim (find_order order_id x) [
    | none ↦ (err key_error, x)
    | some o ↦
        if is_done o.status
        then (ok o, x)
        else let (r, o') = Models.transition now Models.expired o in
          elim r [
            | err e ↦ (err e, x)
            | ok u ↦ (ok o', record x { orders = put order_id o' x.orders })
          ]
  ]
