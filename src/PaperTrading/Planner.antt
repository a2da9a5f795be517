-- ===== src/PaperTrading/Planner.antt =====
-- crypto_trading_mcp/execution/planner.py: `TradePlanner.plan`. Of the consensus, the features and the
-- strategy, `PlanInput` has the entries that it reads; a feature that is no number is missing.
pub mod Sizes
use Prim.Native.String.{◌++◌ as join}
use crypto_trading_mcp.Prelude.{
  String, Bool, true, false, not, Option, none, some, List, [], ◌∷◌, ◌==◌, one_of, non_empty,
  if◌then◌else◌,
}
use crypto_trading_mcp.Text.{upper}
use crypto_trading_mcp.Errors.{Result, ok, err, zero_division}
use crypto_trading_mcp.Float.{Float, ◌⊕◌, ◌⊖◌, ◌⊗◌, ◌⊘◌, ◌<=◌, ◌=?◌, nought, minimum}
use crypto_trading_mcp.Risk.Models.{GlobalRiskLimits}
use crypto_trading_mcp.Risk.Config.{StrategyRisk, merge_effective_limits}
use crypto_trading_mcp.PaperTrading.Plan.{TradePlan}

pub record PlanInput (W : Type 0) : Type 0 where
  pub strategy_id : String
  pub strategy_version : String
  pub risk_management : StrategyRisk W
  pub atr_fallback_multiplier : W
  pub target_risk_reward_ratio : W
  pub decision : String
  pub confidence : W
  pub confirmed_ids : List String
  pub last_close : Option W
  pub atr_14 : Option W
  pub stop_long : Option W
  pub stop_short : Option W
  pub move_be_at_1r : Bool
  pub partial_tp_pct : Option W
  pub equity : W
  pub fee_rate : W
  pub slippage_pct : W

abbrev pub side_name : Bool → String
side_name true = "LONG"
side_name false = "SHORT"

module _ {W : Type 0} ⦃f : Float W⦄ where
  -- `base`, with the status NO_TRADE
  abbrev pub no_trade : PlanInput W → String → TradePlan W
  no_trade i reason = record {
    strategy_id = i.strategy_id;
    strategy_version = i.strategy_version;
    model_ids = i.confirmed_ids;
    symbol = "";
    side = "FLAT";
    entry_price = nought;
    quantity = nought;
    notional = nought;
    stop_loss = none;
    take_profit = none;
    risk_amount = nought;
    expected_fee = nought;
    expected_slippage = nought;
    risk_reward_ratio = none;
    confidence = i.confidence;
    status = "NO_TRADE";
    reason = some reason;
    move_be_at_1r = i.move_be_at_1r;
    partial_tp_pct = i.partial_tp_pct;
  }

  -- The stop of the side, or one from the average true range.
  unfoldable pub stop_of : PlanInput W → Bool → W → Option W
  stop_of i is_long entry = elim (if is_long then i.stop_long else i.stop_short) [
    | some stop ↦ some stop
    | none ↦ elim i.atr_14 [
      | none ↦ none
      | some atr ↦
          let distance = i.atr_fallback_multiplier ⊗ atr in
          some (if is_long then entry ⊖ distance else entry ⊕ distance)
    ]
  ]

  -- The quantity by the budget of the risk, and by the caps on the notional.
  unfoldable pub risk_quantity : GlobalRiskLimits W → PlanInput W → W → W → W
  risk_quantity g i entry stop =
      let l = merge_effective_limits g (some i.risk_management) none in
      (i.equity ⊗ l.risk_per_trade_pct) ⊘ f.abs (entry ⊖ stop)

  unfoldable pub capped_quantity : GlobalRiskLimits W → PlanInput W → W → W
  capped_quantity g i entry =
      let l = merge_effective_limits g (some i.risk_management) none in
      (i.equity ⊗ minimum l.max_trade_pct l.max_position_pct) ⊘ entry

  -- The plan that is proposed.
  unfoldable pub sized : GlobalRiskLimits W → PlanInput W → Bool → W → W → TradePlan W
  sized g i is_long entry stop =
      let distance = f.abs (entry ⊖ stop) in
      let quantity = minimum (risk_quantity g i entry stop) (capped_quantity g i entry) in
      let notional = quantity ⊗ entry in
      let reach = i.target_risk_reward_ratio ⊗ distance in
      let take_profit = if is_long then entry ⊕ reach else entry ⊖ reach in
      record {
        strategy_id = i.strategy_id;
        strategy_version = i.strategy_version;
        model_ids = i.confirmed_ids;
        symbol = "";
        side = side_name is_long;
        entry_price = entry;
        quantity = quantity;
        notional = notional;
        stop_loss = some stop;
        take_profit = some take_profit;
        risk_amount = quantity ⊗ distance;
        expected_fee = notional ⊗ i.fee_rate;
        expected_slippage = i.slippage_pct;
        risk_reward_ratio = some (f.abs (take_profit ⊖ entry) ⊘ distance);
        confidence = i.confidence;
        status = "PROPOSED";
        reason = none;
        move_be_at_1r = i.move_be_at_1r;
        partial_tp_pct = i.partial_tp_pct;
      }

  -- From the side on; a price of zero raises where the cap is divided by it.
  unfoldable pub planned :
      GlobalRiskLimits W → PlanInput W → Bool → W → Option W → Result (TradePlan W)
  planned g i is_long entry none =
      ok (record (no_trade i "INVALID_STOP") { entry_price = entry; side = side_name is_long })
  planned g i is_long entry (some stop) =
      if f.abs (entry ⊖ stop) <= nought
      then ok (record (no_trade i "INVALID_STOP") { entry_price = entry; side = side_name is_long })
      else if entry =? nought
      then err zero_division
      else ok (sized g i is_long entry stop)

  -- The side of the decision.
  unfoldable pub decided : GlobalRiskLimits W → PlanInput W → W → Result (TradePlan W)
  decided g i entry =
      let decision = upper i.decision in
      if decision == "LONG"
      then planned g i true entry (stop_of i true entry)
      else if decision == "SHORT"
      then planned g i false entry (stop_of i false entry)
      else ok (no_trade i (join "Unsupported decision " decision))

  -- TradePlanner.plan
  unfoldable pub plan : GlobalRiskLimits W → PlanInput W → Result (TradePlan W)
  plan g i =
      let decision = upper i.decision in
      if one_of decision ("NO_TRADE" ∷ "NEUTRAL" ∷ "HOLD" ∷ [])
      then ok (no_trade i (join "Consensus decision=" decision))
      else if not (non_empty i.confirmed_ids)
      then ok (no_trade i "NO_VALID_MODEL")
      else elim i.last_close [
        | none ↦ ok (no_trade i "STRATEGY_DATA_UNAVAILABLE")
        | some entry ↦ decided g i entry
      ]
