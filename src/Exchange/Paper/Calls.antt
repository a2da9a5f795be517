-- ===== src/Exchange/Paper/Calls.antt =====
-- The calls that a client makes to `PaperExchange`, and their runs.
use crypto_trading_mcp.Prelude.{String, Option, List, [], ◌∷◌}
use crypto_trading_mcp.Float.{Float}
use crypto_trading_mcp.Exchange.Models.{Order}
use crypto_trading_mcp.Exchange.Ids.{Runtime}
use crypto_trading_mcp.Exchange.Paper.State
use crypto_trading_mcp.Exchange.Paper.State.{PaperExchange, PositionRules}
use crypto_trading_mcp.Exchange.Paper.Orders
use crypto_trading_mcp.Exchange.Paper.Session

-- The texts are symbols, order identifiers, modes and reasons, then the reading of the clock.
pub data Call (W : Type 0) : Type 0 where
  create_order : Order W → Option W → String → Call W
  cancel_order : String → String → Call W
  expire_order : String → String → Call W
  on_price_update : String → W → String → Call W
  end_of_day : String → Call W
  set_price : String → W → Call W
  mark_stale : String → Call W
  simulate_failure : String → Call W
  clear_failure : Call W
  halt : String → Call W
  reset_halt : Call W
  record_api_success : Call W
  configure_position_rules : String → PositionRules W → Call W

module _ {W : Type 0} ⦃f : Float W⦄ (py : Runtime W) where
  -- The exchange after a call, whether it returned or raised.
  unfoldable pub step : Call W → PaperExchange W → PaperExchange W
  step (create_order o market_price now) x = (Orders.create_order py o market_price now x).1
  step (cancel_order id now) x = (Orders.cancel_order id now x).1
  step (expire_order id now) x = (Orders.expire_order id now x).1
  step (on_price_update symbol price now) x = (Session.on_price_update py symbol price now x).1
  step (end_of_day now) x = (Session.end_of_day py now x).1
  step (set_price symbol price) x = State.set_price symbol price x
  step (mark_stale symbol) x = State.mark_stale symbol x
  step (simulate_failure mode) x = State.simulate_failure mode x
  step clear_failure x = State.clear_failure x
  step (halt reason) x = State.halt reason x
  step reset_halt x = State.reset_halt x
  step record_api_success x = State.record_api_success x
  step (configure_position_rules symbol r) x = State.configure_position_rules symbol r x

  unfoldable pub run : PaperExchange W → List (Call W) → PaperExchange W
  run x [] = x
  run x (c ∷ cs) = run (step c x) cs
