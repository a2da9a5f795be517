-- ===== src/PaperTrading/Execution.antt =====
-- `PaperTradingEngine.execute_approved_plan` and `_log_decision` of crypto_trading_mcp/paper/engine.py:
-- a plan passes the checks one after the other, and is then placed on the paper exchange.
use crypto_trading_mcp.Prelude.{
  String, Bool, true, false, ◌||◌, ◌&&◌, not, Option, none, some, List, [], ◌∷◌, ◌++◌, ◌==◌, one_of,
  non_empty, get_or, if◌then◌else◌,
}
use crypto_trading_mcp.Text.{upper}
use crypto_trading_mcp.Dict.{get, put}
use crypto_trading_mcp.Errors.{Result, ok, err, value_error}
use crypto_trading_mcp.Action.{continue}
use crypto_trading_mcp.Float.{Float, ◌⊕◌, ◌<=◌, nought}
use crypto_trading_mcp.Compliance
use crypto_trading_mcp.Compliance.{
  ComplianceReason, ComplianceDecision, ComplianceRequest, TaxResult,
}
use crypto_trading_mcp.Risk.Models.{
  RiskReasonCode, PortfolioRiskSnapshot, TradeProposal, risk_ok, strategy_data_unavailable,
  no_valid_model,
}
use crypto_trading_mcp.Risk.Engine
use crypto_trading_mcp.Risk.Engine.{RiskEngine, Context}
use crypto_trading_mcp.Risk.Correlation
use crypto_trading_mcp.Risk.Correlation.{Powers, CorrelationReason, last_of}
use crypto_trading_mcp.Portfolio.Manager.{PortfolioSnapshot}
use crypto_trading_mcp.Exchange.Models
use crypto_trading_mcp.Exchange.Models.{Order, AssetClass, Fill}
use crypto_trading_mcp.Exchange.Ids.{Runtime, truthy}
use crypto_trading_mcp.Exchange.Paper.State
use crypto_trading_mcp.Exchange.Paper.State.{PaperExchange, PositionRules}
use crypto_trading_mcp.Exchange.Paper.Orders
use crypto_trading_mcp.PaperTrading.Ledger.{
  PaperStore, EngineEvent, save_event, save_order, save_fill, save_snapshot, risk_validated,
  trade_planned, agent_analysis_completed,
}
use crypto_trading_mcp.PaperTrading.Plan.{TradePlan, to_proposal}
use crypto_trading_mcp.PaperTrading.Engine.{
  PaperTradingEngine, RiskResult, asked, not_asked, Conflict, strategy_conflict, check_stop_file,
  not_paper, resolve_conflict, refresh,
}

-- The arguments of `execute_approved_plan`, with the identifier of the run and what it finds outside.
pub record PlanRequest (W : Type 0) : Type 0 where
  pub plan : TradePlan W
  pub market_price : W
  pub asset_class : String
  pub candidate_returns : List W
  pub market_data_stale : Bool
  pub run_id : String
  pub stop_file : Bool
  pub now : String

-- The reason codes of a reply that is not an attempt.
pub data Refusal (W : Type 0) : Type 0 where
  paper_mode_required kill_switch_active trading_halted stale_market_data : Refusal W
  not_proposed : String → Refusal W
  conflicting : Refusal W
  noncompliant : List ComplianceReason → Refusal W
  correlated : List (CorrelationReason W) → Refusal W
  risky : List RiskReasonCode → Refusal W

pub data Reply (W : Type 0) : Type 0 where
  refused : Refusal W → Reply W
  attempted : Bool → Order W → TaxResult W → Reply W

-- The entry "executed".
abbrev pub is_executed : {W : Type 0} → Reply W → Bool
is_executed (refused r) = false
is_executed (attempted executed o tax) = executed

abbrev pub is_strategy_conflict : Conflict → Bool
is_strategy_conflict strategy_conflict = true
is_strategy_conflict _ = false

abbrev pub is_filled : Models.OrderStatus → Bool
is_filled Models.filled = true
is_filled _ = false

-- AssetClass(text)
unfoldable pub asset_of : String → Option AssetClass
asset_of s =
    if s == "CRYPTO"
    then some Models.crypto
    else if s == "EQUITY"
    then some Models.equity
    else if s == "ETF"
    then some Models.etf
    else if s == "COMMODITY"
    then some Models.commodity
    else if s == "FUTURE"
    then some Models.future
    else if s == "PREDICTION_CONTRACT"
    then some Models.prediction_contract
    else none

-- `c.value not in ignore`, where `ignore` has NO_VALID_MODEL if the plan names models.
abbrev pub is_counted : Bool → RiskReasonCode → Bool
is_counted has_models strategy_data_unavailable = false
is_counted has_models no_valid_model = not has_models
is_counted has_models _ = true

-- [c for c in codes if …]
unfoldable pub counted : Bool → List RiskReasonCode → List RiskReasonCode
counted has_models [] = []
counted has_models (c ∷ cs) =
    let rest = counted has_models cs in if is_counted has_models c then c ∷ rest else rest

module _ {W : Type 0} where
  -- PaperTradingEngine._log_decision
  unfoldable pub log_decision :
      PlanRequest W
      → ComplianceDecision
      → RiskResult
      → Bool
      → PaperTradingEngine W
      → PaperTradingEngine W
  log_decision r compliance risk executed e = record e {
    decision_log =
        e.decision_log
        ++ record {
          run_id = r.run_id;
          strategy_selected = r.plan.strategy_id;
          compliance_result = compliance;
          risk_result = risk;
          executed = executed;
        }
          ∷ [];
    store = save_event (e.session.session_id, agent_analysis_completed r.run_id) e.store;
  }

  abbrev pub saved : EngineEvent → PaperTradingEngine W → PaperTradingEngine W
  saved event e = record e { store = save_event (e.session.session_id, event) e.store }

  -- xs[-1:], saved one by one
  abbrev pub save_last : List (Fill W) → PaperStore W → PaperStore W
  save_last [] s = s
  save_last (x ∷ []) s = save_fill x s
  save_last (x ∷ y ∷ ys) s = save_last (y ∷ ys) s

  abbrev pub risk_engine_of : PaperTradingEngine W → RiskEngine W
  risk_engine_of e = record {
    limits = e.risk_limits;
    kill_switch = e.kill_switch;
    okf_resolved = e.okf_resolved;
  }

  -- The keyword arguments of `risk_engine.evaluate`, which stay at their defaults.
  abbrev pub default_context : Context W
  default_context = record {
    open_positions = none;
    correlation_data_available = true;
    is_new_entry = true;
    is_position_modification = false;
    strategy_style = none;
    memory_gate_result = none;
    okf_context = none;
  }

  abbrev pub risk_snapshot : PortfolioSnapshot W → PaperTradingEngine W → PortfolioRiskSnapshot W
  risk_snapshot snap e = record {
    equity = snap.equity;
    available_cash = snap.available_cash;
    positions_exposure = snap.positions_exposure;
    daily_pnl = snap.daily_pnl;
    drawdown_pct = snap.drawdown_pct;
    trades_today = snap.trades_today;
    kill_switch_active = e.kill_switch.active;
    trading_halted = e.exchange.halted;
  }

module _ {W : Type 0} ⦃f : Float W⦄ where
  -- The refusals before the conflict check.
  unfoldable pub first_refusal : PlanRequest W → PaperTradingEngine W → Option (Refusal W)
  first_refusal r e =
      if not_paper e
      then some paper_mode_required
      else if e.kill_switch.active || e.exchange.halted
      then some (if e.kill_switch.active then kill_switch_active else trading_halted)
      else if r.market_data_stale
      then some stale_market_data
      else if not (r.plan.status == "PROPOSED") || (r.plan.quantity <= nought)
      then some (not_proposed (get_or (truthy r.plan.reason) "NO_TRADE"))
      else none

  unfoldable pub compliance_of : PlanRequest W → PaperTradingEngine W → ComplianceDecision
  compliance_of r e = Compliance.evaluate e.compliance (record {
    strategy_id = some r.plan.strategy_id;
    asset_class = r.asset_class;
    notional = r.plan.notional;
    daily_turnover = e.daily_turnover;
    trading_mode = e.config.trading_mode;
    live_trading_enabled = e.config.live_trading_enabled;
  })

  abbrev pub proposal_of : PlanRequest W → TradeProposal W
  proposal_of r = to_proposal r.plan (some (f.dec 1_000_000 0)) false (some 100)

  -- The reason codes of the risk engine that count.
  unfoldable pub risk_reasons :
      PlanRequest W → PortfolioSnapshot W → PaperTradingEngine W → List RiskReasonCode
  risk_reasons r snap e =
      counted (non_empty r.plan.model_ids)
        (Engine.evaluate (risk_engine_of e) (proposal_of r) (risk_snapshot snap e) none
          default_context).reason_codes

  unfoldable pub correlation_of :
      Powers W → PlanRequest W → PaperTradingEngine W → List (CorrelationReason W)
  correlation_of pow r e =
      if non_empty r.candidate_returns && non_empty e.return_history
      then Correlation.evaluate pow e.max_correlation r.candidate_returns e.return_history
      else []

  abbrev pub order_of : PlanRequest W → AssetClass → PaperTradingEngine W → Order W
  order_of r asset e = record {
    order_id = none;
    client_order_id = none;
    exchange = "paper";
    session_id = some e.session.session_id;
    instrument_id = none;
    symbol = r.plan.symbol;
    instrument_type = asset;
    side = if one_of (upper r.plan.side) ("LONG" ∷ "BUY" ∷ []) then Models.buy else Models.sell;
    order_type = Models.market;
    quantity = r.plan.quantity;
    filled_quantity = nought;
    limit_price = none;
    stop_price = none;
    status = Models.created;
    strategy_id = some r.plan.strategy_id;
    strategy_version = some r.plan.strategy_version;
    requested_price = none;
    average_fill_price = none;
    fees = nought;
    slippage = nought;
    reject_reason = none;
    updated_at = r.now;
    stop_loss = r.plan.stop_loss;
    take_profit = r.plan.take_profit;
    fills = [];
  }

  -- `if plan.confluence.get("move_be_at_1r") or …`: the rules of the new position.
  abbrev pub protected : TradePlan W → PaperExchange W → PaperExchange W
  protected p x =
      if p.move_be_at_1r || (p.strategy_id == "multi_model_po3_vwap")
      then State.configure_position_rules p.symbol
          (record {
            move_be_at_1r = true;
            partial_tp_pct = some (get_or p.partial_tp_pct (f.dec 50 0));
            trailing_atr = none;
            trailing_mult = f.dec 2 0;
            trailing_pct = none;
            trailing_distance = none;
            mean_reversion_sma = none;
            allow_widen = false;
          })
          x
      else x

  -- The block `if executed`.
  unfoldable pub booked_plan : PlanRequest W → PaperTradingEngine W → PaperTradingEngine W
  booked_plan r e =
      let p = r.plan in
      record e {
        daily_turnover = e.daily_turnover ⊕ p.notional;
        strategy_books =
            put p.strategy_id (get_or (get p.strategy_id e.strategy_books) [] ++ p.symbol ∷ [])
              e.strategy_books;
        return_history =
            if non_empty r.candidate_returns
            then put p.symbol (last_of 50 r.candidate_returns) e.return_history
            else e.return_history;
        exchange = protected p e.exchange;
        session = record e.session {
          strategy_versions = put p.strategy_id p.strategy_version e.session.strategy_versions;
        };
      }

  abbrev pub snapshot_saved : PaperTradingEngine W → PaperTradingEngine W
  snapshot_saved e =
      let (snap, e') = refresh e in
      record e' { store = save_snapshot (e'.session.session_id, snap) e'.store }

  -- What follows the order that `create_order` returns.
  unfoldable pub settled_plan :
      PlanRequest W
      → ComplianceDecision
      → Order W
      → PaperTradingEngine W
      → Result (Reply W) × PaperTradingEngine W
  unfolding booked_plan log_decision
  settled_plan r compliance o e =
      let executed = is_filled o.status in
      let stored = record e { store = save_last e.exchange.fills (save_order o e.store) } in
      let booked = if executed then booked_plan r stored else stored in
      let tax = Compliance.apply e.tax nought o.fees r.plan.notional r.asset_class in
      let logged = log_decision r compliance (asked true (risk_ok ∷ [])) executed booked in
      (ok (attempted executed o tax), snapshot_saved logged)

  -- A plan that the risk engine has cleared.
  unfoldable pub placed :
      Runtime W
      → PlanRequest W
      → ComplianceDecision
      → PaperTradingEngine W
      → Result (Reply W) × PaperTradingEngine W
  placed py r compliance e =
      let noted =
        saved (trade_planned r.plan.strategy_id r.plan.symbol) (saved (risk_validated true []) e) in
      let priced = record noted {
        exchange = State.set_price r.plan.symbol r.market_price noted.exchange;
      } in
      elim (asset_of r.asset_class) [
        | none ↦ (err value_error, priced)
        | some asset ↦
            let (result, x) =
              Orders.create_order py (order_of r asset priced) (some r.market_price) r.now
                priced.exchange in
            continue (result, record priced { exchange = x }) (settled_plan r compliance)
      ]

  -- The check by the risk engine.
  unfoldable pub risk_checked :
      Runtime W
      → PlanRequest W
      → ComplianceDecision
      → PaperTradingEngine W
      → Result (Reply W) × PaperTradingEngine W
  risk_checked py r compliance e =
      let (snap, e') = refresh e in
      let reasons = risk_reasons r snap e' in
      if non_empty reasons
      then (
        ok (refused (risky reasons)),
        saved (risk_validated false reasons)
            (log_decision r compliance (asked false reasons) false e'),
      )
      else placed py r compliance e'

  -- The checks of compliance and of correlation.
  unfoldable pub compliance_checked :
      Runtime W
      → Powers W
      → PlanRequest W
      → PaperTradingEngine W
      → Result (Reply W) × PaperTradingEngine W
  compliance_checked py pow r e =
      let decision = compliance_of r e in
      let reasons = correlation_of pow r e in
      if not decision.approved
      then (
        ok (refused (noncompliant decision.reason_codes)),
        log_decision r decision (not_asked decision.reason_codes) false e,
      )
      else if non_empty reasons
      then (ok (refused (correlated reasons)), e)
      else risk_checked py r decision e

  -- The check for a conflict of strategies.
  unfoldable pub conflict_checked :
      Runtime W
      → Powers W
      → PlanRequest W
      → PaperTradingEngine W
      → Result (Reply W) × PaperTradingEngine W
  conflict_checked py pow r e =
      elim (resolve_conflict r.plan.symbol r.plan.side r.plan.strategy_id e) [
        | err ex ↦ (err ex, e)
        | ok c ↦
            if is_strategy_conflict c
            then (ok (refused conflicting), e)
            else compliance_checked py pow r e
      ]

  -- PaperTradingEngine.execute_approved_plan
  unfoldable pub execute_approved_plan :
      Runtime W
      → Powers W
      → PlanRequest W
      → PaperTradingEngine W
      → Result (Reply W) × PaperTradingEngine W
  execute_approved_plan py pow r e =
      let e' = check_stop_file r.stop_file e in
      elim (first_refusal r e') [
        | some x ↦ (ok (refused x), e')
        | none ↦ conflict_checked py pow r e'
      ]
