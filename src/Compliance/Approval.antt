-- ===== src/Compliance/Approval.antt =====
-- When the compliance gate approves.
use crypto_trading_mcp.Prelude.{◌≡◌, ◌⊎◌, ◌↔◌, Bool, true, false, not, ◌==◌, one_of, arith}
use crypto_trading_mcp.Guarded.{Quiet, fired-Quiet, Quiet-fired}
use crypto_trading_mcp.Float.{Float, ◌⊕◌, ◌>>◌}
use crypto_trading_mcp.Compliance.{
  ComplianceConfig, ComplianceRequest, is_blocked, policy_guards, evaluate,
}

module _ {W : Type 0} ⦃f : Float W⦄ where
  -- What the rules of the policy ask of an order.
  pub record IsCompliant (c : ComplianceConfig W) (o : ComplianceRequest W) : Type 0 where
    pub paper :
        (c.require_paper_mode ≡ false)
        ⊎ (((o.trading_mode == "paper") ≡ true) × (o.live_trading_enabled ≡ false))
    pub strategy : is_blocked o.strategy_id c.blocked_strategies ≡ false
    pub asset : one_of o.asset_class c.blocked_asset_classes ≡ false
    pub prediction :
        ((o.asset_class == "PREDICTION_CONTRACT") ≡ false) ⊎ (c.allow_prediction_markets ≡ true)
    pub future : ((o.asset_class == "FUTURE") ≡ false) ⊎ (c.allow_futures ≡ true)
    pub turnover : ((o.daily_turnover ⊕ o.notional) >> c.max_turnover_usd_per_day) ≡ false

  Quiet-IsCompliant :
      (c : ComplianceConfig W) (o : ComplianceRequest W)
      → Quiet (policy_guards c o)
      → IsCompliant c o
  unfolding policy_guards
  Quiet-IsCompliant c o q = record {
    paper = ground arith;
    strategy = ground arith;
    asset = ground arith;
    prediction = ground arith;
    future = ground arith;
    turnover = ground arith;
  }

  IsCompliant-Quiet :
      (c : ComplianceConfig W) (o : ComplianceRequest W)
      → IsCompliant c o
      → Quiet (policy_guards c o)
  unfolding policy_guards
  IsCompliant-Quiet c o r = ground arith

  -- With the policy enabled, the gate approves exactly the orders that meet each of its rules.
  pub compliance_approved_iff :
      (c : ComplianceConfig W) (o : ComplianceRequest W)
      → c.enabled ≡ true
      → ((evaluate c o).approved ≡ true) ↔ IsCompliant c o
  unfolding evaluate
  compliance_approved_iff c o on = (
    λ h. Quiet-IsCompliant c o (fired-Quiet (policy_guards c o) (not_true _ (simp (on) at h))),
    λ r. simp (on, Quiet-fired (policy_guards c o) (IsCompliant-Quiet c o r)),
  )
    where
      not_true : (b : Bool) → not b ≡ true → b ≡ false
      not_true b k = ground arith
