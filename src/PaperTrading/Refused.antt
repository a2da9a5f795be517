-- ===== src/PaperTrading/Refused.antt =====
-- What a refusal of a plan leaves alone.
use crypto_trading_mcp.Prelude.{◌≡◌, refl, ℕ, Bool, List, arith}
use crypto_trading_mcp.Dict.{Dict}
use crypto_trading_mcp.Errors.{ok}
use crypto_trading_mcp.Float.{Float}
use crypto_trading_mcp.Compliance.{ComplianceDecision}
use crypto_trading_mcp.Portfolio.Manager.{snapshot}
use crypto_trading_mcp.Risk.Correlation.{Powers}
use crypto_trading_mcp.Exchange.Models.{Order, Fill}
use crypto_trading_mcp.Exchange.Ids.{Runtime}
use crypto_trading_mcp.Exchange.Paper.State.{Trade, halt}
use crypto_trading_mcp.PaperTrading.Engine.{PaperTradingEngine, check_stop_file, refresh}
use crypto_trading_mcp.PaperTrading.Execution.{
  PlanRequest, Refusal, refused, log_decision, compliance_of, settled_plan, placed, risk_checked,
  compliance_checked, conflict_checked, execute_approved_plan,
}

-- What the exchange and the engine keep of the plans that were placed.
pub record Books (W : Type 0) : Type 0 where
  pub orders : Dict (Order W)
  pub fills : List (Fill W)
  pub trades : List (Trade W)
  pub cash : W
  pub realized_pnl : W
  pub trades_today : ℕ
  pub daily_turnover : W
  pub saved_orders : List (Order W)

abbrev pub books : {W : Type 0} → PaperTradingEngine W → Books W
books e = record {
  orders = e.exchange.orders;
  fills = e.exchange.fills;
  trades = e.exchange.trades;
  cash = e.exchange.portfolio.cash;
  realized_pnl = e.exchange.portfolio.realized_pnl;
  trades_today = e.exchange.portfolio.trades_today;
  daily_turnover = e.daily_turnover;
  saved_orders = e.store.orders;
}

check_stop_file-books :
    {W : Type 0} (present : Bool) (e : PaperTradingEngine W)
    → books (check_stop_file present e) ≡ books e
unfolding check_stop_file halt
check_stop_file-books present e = ground arith

refresh-books :
    {W : Type 0} ⦃f : Float W⦄ (e : PaperTradingEngine W) → books (refresh e).1 ≡ books e
unfolding refresh snapshot
refresh-books e = refl

module _ {W : Type 0} ⦃f : Float W⦄ (py : Runtime W) (pow : Powers W) where
  placed-refused :
      (r : PlanRequest W) (d : ComplianceDecision) (e : PaperTradingEngine W) (x : Refusal W)
      → (placed py r d e).0 ≡ ok (refused x)
      → ⊥
  unfolding placed settled_plan
  placed-refused r d e x h = ground arith

  risk_checked-refused :
      (r : PlanRequest W) (d : ComplianceDecision) (e : PaperTradingEngine W) (x : Refusal W)
      → (risk_checked py r d e).0 ≡ ok (refused x)
      → books (risk_checked py r d e).1 ≡ books e
  unfolding risk_checked log_decision
  risk_checked-refused r d e x h =
      ground (arith, refresh-books e, placed-refused r d (refresh e).1 x)

  compliance_checked-refused :
      (r : PlanRequest W) (e : PaperTradingEngine W) (x : Refusal W)
      → (compliance_checked py pow r e).0 ≡ ok (refused x)
      → books (compliance_checked py pow r e).1 ≡ books e
  unfolding compliance_checked log_decision
  compliance_checked-refused r e x h =
      ground (arith, risk_checked-refused r (compliance_of r e) e x)

  conflict_checked-refused :
      (r : PlanRequest W) (e : PaperTradingEngine W) (x : Refusal W)
      → (conflict_checked py pow r e).0 ≡ ok (refused x)
      → books (conflict_checked py pow r e).1 ≡ books e
  unfolding conflict_checked
  conflict_checked-refused r e x h = ground (arith, compliance_checked-refused r e x)

  -- A plan that is refused, at whichever check, leaves the orders, the fills, the trades, the cash,
  -- the realized gain, the count of trades and the turnover as they were.
  pub refused-books :
      (r : PlanRequest W) (e : PaperTradingEngine W) (x : Refusal W)
      → (execute_approved_plan py pow r e).0 ≡ ok (refused x)
      → books (execute_approved_plan py pow r e).1 ≡ books e
  unfolding execute_approved_plan
  refused-books r e x h = ground (
    arith,
    check_stop_file-books r.stop_file e,
    conflict_checked-refused r (check_stop_file r.stop_file e) x,
  )
