-- ===== src/Compliance.antt =====
-- crypto_trading_mcp/compliance/policy.py: the compliance gate before the risk engine, and the tax
-- simulation. The reading of the configuration file is not modelled.
pub mod Approval
use crypto_trading_mcp.Prelude.{
  String, Bool, true, false, ◌||◌, ◌&&◌, not, Option, none, some, List, [], ◌∷◌, ◌==◌, one_of,
  non_empty, if◌then◌else◌,
}
use crypto_trading_mcp.Guarded.{Guarded, fired}
use crypto_trading_mcp.Float.{Float, ◌⊕◌, ◌⊖◌, ◌⊗◌, ◌<<◌, ◌>>◌, nought}

pub record ComplianceConfig (W : Type 0) : Type 0 where
  pub enabled : Bool
  pub blocked_strategies : List String
  pub blocked_asset_classes : List String
  pub require_paper_mode : Bool
  pub max_turnover_usd_per_day : W
  pub allow_prediction_markets : Bool
  pub allow_futures : Bool

pub record TaxSimulationConfig (W : Type 0) : Type 0 where
  pub enabled : Bool
  pub disclaimer : String
  pub vda_enabled : Bool
  pub vda_rate : W
  pub vda_asset_classes : List String
  pub tds_enabled : Bool
  pub tds_rate : W
  pub tds_asset_classes : List String
  pub loss_setoff_allowed : Bool
  pub equity_transaction_tax : W
  pub commodity_transaction_tax : W
  pub default_transaction_tax : W

pub data ComplianceReason : Type 0 where
  compliance_ok compliance_disabled compliance_blocked paper_mode_required : ComplianceReason
  strategy_blocked asset_class_blocked prediction_markets_disabled futures_disabled :
      ComplianceReason
  turnover_limit : ComplianceReason

pub record ComplianceDecision : Type 0 where
  pub approved : Bool
  pub reason_codes : List ComplianceReason

-- The arguments of the gate, and the settings that it reads.
pub record ComplianceRequest (W : Type 0) : Type 0 where
  pub strategy_id : Option String
  pub asset_class : String
  pub notional : W
  pub daily_turnover : W
  pub trading_mode : String
  pub live_trading_enabled : Bool

-- `strategy_id and strategy_id in blocked`
abbrev pub is_blocked : Option String → List String → Bool
is_blocked none blocked = false
is_blocked (some id) blocked = not (id == "") && one_of id blocked

-- COMPLIANCE_BLOCKED before each reason.
pub paired : List ComplianceReason → List ComplianceReason
paired [] = []
paired (r ∷ rs) = compliance_blocked ∷ r ∷ paired rs

pub record TaxResult (W : Type 0) : Type 0 where
  pub gross_pnl : W
  pub fees : W
  pub transaction_tax : W
  pub tds : W
  pub net_pnl_before_income_tax : W
  pub estimated_tax : W
  pub disclaimer : String

module _ {W : Type 0} ⦃f : Float W⦄ where
  pub policy_guards : ComplianceConfig W → ComplianceRequest W → Guarded ComplianceReason
  policy_guards c o =
      (
        c.require_paper_mode && (not (o.trading_mode == "paper") || o.live_trading_enabled),
        paper_mode_required,
      )
      ∷ (is_blocked o.strategy_id c.blocked_strategies, strategy_blocked)
      ∷ (one_of o.asset_class c.blocked_asset_classes, asset_class_blocked)
      ∷ (
        (o.asset_class == "PREDICTION_CONTRACT") && not c.allow_prediction_markets,
        prediction_markets_disabled,
      )
      ∷ ((o.asset_class == "FUTURE") && not c.allow_futures, futures_disabled)
      ∷ ((o.daily_turnover ⊕ o.notional) >> c.max_turnover_usd_per_day, turnover_limit)
      ∷ []

  -- CompliancePolicy.evaluate
  unfoldable pub evaluate : ComplianceConfig W → ComplianceRequest W → ComplianceDecision
  unfolding paired policy_guards
  evaluate c o =
      let reasons = fired (policy_guards c o) in
      if not c.enabled
      then record { approved = true; reason_codes = compliance_disabled ∷ [] }
      else record {
        approved = not (non_empty reasons);
        reason_codes = if non_empty reasons then paired reasons else compliance_ok ∷ [];
      }

  transaction_rate : TaxSimulationConfig W → String → W
  transaction_rate c asset_class =
      if one_of asset_class ("EQUITY" ∷ "ETF" ∷ [])
      then c.equity_transaction_tax
      else if asset_class == "COMMODITY"
      then c.commodity_transaction_tax
      else c.default_transaction_tax

  -- TaxSimulator.apply
  pub apply : TaxSimulationConfig W → W → W → W → String → TaxResult W
  unfolding transaction_rate
  apply c gross_pnl fees notional asset_class =
      let tx = notional ⊗ transaction_rate c asset_class in
      let withheld =
        one_of asset_class c.tds_asset_classes && c.tds_enabled && (notional >> nought) in
      let taxed =
        one_of asset_class c.vda_asset_classes && c.vda_enabled && (gross_pnl >> nought) in
      let net = gross_pnl ⊖ fees ⊖ tx in
      if not c.enabled
      then record {
        gross_pnl = gross_pnl;
        fees = fees;
        transaction_tax = nought;
        tds = nought;
        net_pnl_before_income_tax = gross_pnl ⊖ fees;
        estimated_tax = nought;
        disclaimer = c.disclaimer;
      }
      else record {
        gross_pnl = gross_pnl;
        fees = fees;
        transaction_tax = tx;
        tds = if withheld then notional ⊗ c.tds_rate else nought;
        net_pnl_before_income_tax = if withheld then net ⊖ notional ⊗ c.tds_rate else net;
        estimated_tax =
            if taxed
            then (if not c.loss_setoff_allowed && (gross_pnl << nought)
                then nought
                else gross_pnl ⊗ c.vda_rate)
            else nought;
        disclaimer = c.disclaimer;
      }
