-- ===== src/PaperTrading/Cleared.antt =====
-- What a plan has passed when its order is placed.
use crypto_trading_mcp.Prelude.{
  ◌≡◌, refl, sym, ◌⊎◌, inl, inr, Bool, true, false, none, List, [], ◌∷◌, ◌==◌, non_empty, All,
  arith, if◌then◌else◌,
}
use crypto_trading_mcp.Errors.{Result, ok, err}
use crypto_trading_mcp.Guarded.{fired}
use crypto_trading_mcp.Float.{Float, ◌<=◌, nought}
use crypto_trading_mcp.Compliance.{ComplianceDecision, TaxResult}
use crypto_trading_mcp.Risk.Models.{
  RiskReasonCode, risk_ok, strategy_data_unavailable, no_valid_model,
}
use crypto_trading_mcp.Risk.Config.{merge_effective_limits, activate}
use crypto_trading_mcp.Risk.Guards.{Guards}
use crypto_trading_mcp.Risk.Engine.{constraints, guards}
use crypto_trading_mcp.Risk.Engine.Approval.{evaluate-reason_codes}
use crypto_trading_mcp.Risk.Correlation.{Powers}
use crypto_trading_mcp.Exchange.Models.{Order}
use crypto_trading_mcp.Exchange.Ids.{Runtime}
use crypto_trading_mcp.PaperTrading.Engine.{
  PaperTradingEngine, Conflict, check_stop_file, not_paper, resolve_conflict, refresh,
}
use crypto_trading_mcp.PaperTrading.Execution.{
  PlanRequest, attempted, is_counted, counted, is_strategy_conflict, risk_engine_of,
  default_context, risk_snapshot, first_refusal, compliance_of, proposal_of, risk_reasons,
  correlation_of, risk_checked, compliance_checked, conflict_checked, execute_approved_plan,
}

-- The codes that do not count: the missing data of the strategy, and the missing model of a plan
-- that names models.
abbrev pub IsExcused : Bool → RiskReasonCode → Type 0
IsExcused has_models strategy_data_unavailable = Unit {0}
IsExcused has_models no_valid_model = has_models ≡ true
IsExcused has_models _ = ⊥

excused : (m : Bool) (c : RiskReasonCode) → is_counted m c ≡ false → IsExcused m c
excused m strategy_data_unavailable h = tt
excused m no_valid_model h = ground arith
excused m _ h = cc

-- Each guard is quiet, or its code does not count.
counted-fired :
    (m : Bool) (gs : Guards)
    → non_empty (counted m (fired gs)) ≡ false
    → All (λ g. (g.0 ≡ false) ⊎ IsExcused m g.1) gs
unfolding counted fired
counted-fired m [] h = tt
counted-fired m ((true, c) ∷ gs) h =
    (inr (excused m c (ground arith)), counted-fired m gs (ground arith))
counted-fired m ((false, c) ∷ gs) h = (inl refl, counted-fired m gs h)

-- RISK_OK counts, so it is not what is left.
fired_only :
    (m : Bool) (codes : List RiskReasonCode)
    → non_empty (counted m (if non_empty codes then codes else risk_ok ∷ [])) ≡ false
    → non_empty (counted m codes) ≡ false
unfolding counted
fired_only m [] h = cc
fired_only m (c ∷ codes) h = h

module _ {W : Type 0} ⦃f : Float W⦄ where
  -- What the engine has checked when it places an order.
  pub record IsCleared (pow : Powers W) (r : PlanRequest W) (e : PaperTradingEngine W)
      : Type 0 where
    pub no_stop_file : r.stop_file ≡ false
    pub paper : not_paper e ≡ false
    pub alive : e.kill_switch.active ≡ false
    pub trading : e.exchange.halted ≡ false
    pub fresh : r.market_data_stale ≡ false
    pub proposed : (r.plan.status == "PROPOSED") ≡ true
    pub quantity : (r.plan.quantity <= nought) ≡ false
    pub agreed :
        (c : Conflict) × (resolve_conflict r.plan.symbol r.plan.side r.plan.strategy_id e ≡ ok c)
        × (is_strategy_conflict c ≡ false)
    pub compliant : (compliance_of r e).approved ≡ true
    pub uncorrelated : non_empty (correlation_of pow r e) ≡ false
    pub safe :
        let (snap, e') = refresh e in
        let engine = risk_engine_of e' in
        let k = constraints engine default_context in
        All
          (λ g. (g.0 ≡ false) ⊎ IsExcused (non_empty r.plan.model_ids) g.1)
          (guards engine k
            (merge_effective_limits engine.limits none k)
            (proposal_of r)
            (risk_snapshot snap e')
            false
            default_context)

  first_refusal-none :
      (r : PlanRequest W) (e : PaperTradingEngine W)
      → first_refusal r (check_stop_file r.stop_file e) ≡ none
      → (r.stop_file ≡ false)
        × (not_paper e ≡ false)
        × (e.kill_switch.active ≡ false)
        × (e.exchange.halted ≡ false)
        × (r.market_data_stale ≡ false)
        × ((r.plan.status == "PROPOSED") ≡ true)
        × ((r.plan.quantity <= nought) ≡ false)
  unfolding first_refusal check_stop_file activate
  first_refusal-none r e h = (
    ground arith,
    ground arith,
    ground arith,
    ground arith,
    ground arith,
    ground arith,
    ground arith,
  )

  -- The codes of the risk engine count for nothing only where each of its guards is excused.
  risk_reasons-IsExcused :
      (r : PlanRequest W) (e : PaperTradingEngine W)
      → let (snap, e') = refresh e in
        let engine = risk_engine_of e' in
        let k = constraints engine default_context in
        non_empty (risk_reasons r snap e') ≡ false
        → All
            (λ g. (g.0 ≡ false) ⊎ IsExcused (non_empty r.plan.model_ids) g.1)
            (guards engine k
              (merge_effective_limits engine.limits none k)
              (proposal_of r)
              (risk_snapshot snap e')
              false
              default_context)
  unfolding risk_reasons
  risk_reasons-IsExcused r e h =
      let (snap, e') = refresh e in
      counted-fired (non_empty r.plan.model_ids) _ (
        fired_only (non_empty r.plan.model_ids) _ (
          rw
            (sym (
              evaluate-reason_codes (risk_engine_of e') (proposal_of r) (risk_snapshot snap e') none
                default_context))
            h))

  module _ (py : Runtime W) (pow : Powers W) where
    risk_checked-attempted :
        (r : PlanRequest W) (d : ComplianceDecision) (e : PaperTradingEngine W) {b : Bool}
        {o : Order W} {t : TaxResult W}
        → (risk_checked py r d e).0 ≡ ok (attempted b o t)
        → let (snap, e') = refresh e in non_empty (risk_reasons r snap e') ≡ false
    unfolding risk_checked
    risk_checked-attempted r d e h = ground arith

    compliance_checked-attempted :
        (r : PlanRequest W) (e : PaperTradingEngine W) {b : Bool} {o : Order W} {t : TaxResult W}
        → (compliance_checked py pow r e).0 ≡ ok (attempted b o t)
        → ((compliance_of r e).approved ≡ true)
          × (non_empty (correlation_of pow r e) ≡ false)
          × ((risk_checked py r (compliance_of r e) e).0 ≡ ok (attempted b o t))
    unfolding compliance_checked
    compliance_checked-attempted r e h = (ground arith, ground arith, ground arith)

    conflict_checked-attempted :
        (r : PlanRequest W) (e : PaperTradingEngine W) {b : Bool} {o : Order W} {t : TaxResult W}
        (c : Result Conflict)
        → resolve_conflict r.plan.symbol r.plan.side r.plan.strategy_id e ≡ c
        → (conflict_checked py pow r e).0 ≡ ok (attempted b o t)
        → ((c' : Conflict) × (c ≡ ok c') × (is_strategy_conflict c' ≡ false))
          × ((compliance_checked py pow r e).0 ≡ ok (attempted b o t))
    unfolding conflict_checked
    conflict_checked-attempted r e (err x) s h = ground arith
    conflict_checked-attempted r e (ok c) s h = ((c, refl, ground arith), ground arith)

    execute-attempted :
        (r : PlanRequest W) (e : PaperTradingEngine W) {b : Bool} {o : Order W} {t : TaxResult W}
        → (execute_approved_plan py pow r e).0 ≡ ok (attempted b o t)
        → (first_refusal r (check_stop_file r.stop_file e) ≡ none)
          × ((conflict_checked py pow r (check_stop_file r.stop_file e)).0 ≡ ok (attempted b o t))
    unfolding execute_approved_plan
    execute-attempted r e h = (ground arith, ground arith)

    no_stop_file :
        (e : PaperTradingEngine W) (present : Bool)
        → present ≡ false
        → check_stop_file present e ≡ e
    unfolding check_stop_file
    no_stop_file e true h = ground arith
    no_stop_file e false h = refl

    -- An order is placed only for a plan that has passed every check, in the state that the call
    -- finds: there is no STOP file, the mode is paper, the kill switch is off, the exchange is not
    -- halted, the data are fresh, the plan is proposed with a quantity that is not zero or less,
    -- there is no conflict of strategies, the compliance policy approves, the correlation filter
    -- has no objection, and each guard of the risk engine is quiet or asks for data of the strategy,
    -- which the engine does not have, or for a model that the plan names.
    pub attempted-IsCleared :
        (r : PlanRequest W) (e : PaperTradingEngine W) (executed : Bool) (o : Order W)
        (tax : TaxResult W)
        → (execute_approved_plan py pow r e).0 ≡ ok (attempted executed o tax)
        → IsCleared pow r e
    attempted-IsCleared r e executed o tax h =
        let (first, h') = execute-attempted r e h in
        let (stop, paper, alive, trading, fresh, proposed, quantity) =
          first_refusal-none r e first in
        let at : (conflict_checked py pow r e).0 ≡ ok (attempted executed o tax) =
          rw (sym (no_stop_file e r.stop_file stop)) h' in
        let (agreed, h'') = conflict_checked-attempted r e _ refl at in
        let (compliant, uncorrelated, checked) = compliance_checked-attempted r e h'' in
        record {
          no_stop_file = stop;
          paper = paper;
          alive = alive;
          trading = trading;
          fresh = fresh;
          proposed = proposed;
          quantity = quantity;
          agreed = agreed;
          compliant = compliant;
          uncorrelated = uncorrelated;
          safe =
              risk_reasons-IsExcused r e (risk_checked-attempted r (compliance_of r e) e checked);
        }
