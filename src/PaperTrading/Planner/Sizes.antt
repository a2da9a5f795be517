-- ===== src/PaperTrading/Planner/Sizes.antt =====
-- The size of a plan that is proposed.
use crypto_trading_mcp.Prelude.{
  String, if◌then◌else◌, ◌≡◌, refl, sym, ◌∙◌, eq_iff, Bool, true, false, Option, none, some, [],
  ◌∷◌, ◌==◌, one_of, non_empty, get_or, ap, Bool-cases, inl, inr,
}
use crypto_trading_mcp.Text.{upper}
use crypto_trading_mcp.Errors.{Result, ok}
use crypto_trading_mcp.Float.{Float, ◌⊕◌, ◌⊖◌, ◌⊗◌, ◌⊘◌, minimum, ◌<=◌, ◌=?◌, nought}
use crypto_trading_mcp.Float.Laws.{IsOrdered, minimum-le_left, minimum-le_right}
use crypto_trading_mcp.Risk.Config.{merge_effective_limits}
use crypto_trading_mcp.Risk.Models.{GlobalRiskLimits}
use crypto_trading_mcp.PaperTrading.Plan.{TradePlan}
use crypto_trading_mcp.PaperTrading.Planner.{
  PlanInput, side_name, stop_of, risk_quantity, capped_quantity, sized, planned, decided, plan,
}

module _ {W : Type 0} ⦃f : Float W⦄ where
  -- What a proposed plan stands on.
  pub record IsPlanned (g : GlobalRiskLimits W) (i : PlanInput W) (entry : W) (p : TradePlan W)
      : Type 0 where
    pub is_long : Bool
    pub stop : W
    pub decision : (upper i.decision == side_name is_long) ≡ true
    pub stopped : stop_of i is_long entry ≡ some stop
    pub distant : (f.abs (entry ⊖ stop) <= nought) ≡ false
    pub plan : p ≡ sized g i is_long entry stop

  -- A plan that is not a trade is not proposed.
  not_proposed :
      {A : Type 0} (r p : TradePlan W)
      → ◌≡◌ {A = Result (TradePlan W)} (ok r) (ok p)
      → r.status ≡ "NO_TRADE"
      → p.status ≡ "PROPOSED"
      → A
  not_proposed r p k h q =
      let same : r ≡ p = cc in
      let never : false ≡ true =
        (eq_iff "NO_TRADE" "PROPOSED").1 (sym h ∙ ap (λ (x : TradePlan W). x.status) same ∙ q) in
      cc

  planned-IsPlanned :
      (g : GlobalRiskLimits W) (i : PlanInput W) (b : Bool) (entry : W) (stop : Option W)
      {p : TradePlan W}
      → (upper i.decision == side_name b) ≡ true
      → stop_of i b entry ≡ stop
      → planned g i b entry stop ≡ ok p
      → p.status ≡ "PROPOSED"
      → IsPlanned g i entry p
  unfolding planned
  planned-IsPlanned g i b entry none h s k q = not_proposed _ _ k refl q
  planned-IsPlanned g i b entry (some stop) h s k q =
      elim (Bool-cases (f.abs (entry ⊖ stop) <= nought)) [
        | inl near ↦ not_proposed _ _ (rw near at k) refl q
        | inr far ↦ elim (Bool-cases (entry =? nought)) [
          | inl zero ↦ cc (rw (far, zero) at k)
          | inr priced ↦ record {
            is_long = b;
            stop = stop;
            decision = h;
            stopped = s;
            distant = far;
            plan = let same = rw (far, priced) at k in cc;
          }
        ]
      ]

  decided-IsPlanned :
      (g : GlobalRiskLimits W) (i : PlanInput W) (entry : W) {p : TradePlan W}
      → decided g i entry ≡ ok p
      → p.status ≡ "PROPOSED"
      → IsPlanned g i entry p
  unfolding decided
  decided-IsPlanned g i entry k q = elim (Bool-cases (upper i.decision == "LONG")) [
    | inl long ↦ planned-IsPlanned g i true entry _ long refl (rw long at k) q
    | inr other ↦ elim (Bool-cases (upper i.decision == "SHORT")) [
      | inl short ↦ planned-IsPlanned g i false entry _ short refl (rw (other, short) at k) q
      | inr neither ↦ not_proposed _ _ (rw (other, neither) at k) refl q
    ]
  ]

  plan-IsPlanned :
      (g : GlobalRiskLimits W) (i : PlanInput W) (entry : W) {p : TradePlan W}
      → i.last_close ≡ some entry
      → plan g i ≡ ok p
      → p.status ≡ "PROPOSED"
      → (non_empty i.confirmed_ids ≡ true) × IsPlanned g i entry p
  unfolding plan
  plan-IsPlanned g i entry last k q =
      elim (Bool-cases (one_of (upper i.decision) ("NO_TRADE" ∷ "NEUTRAL" ∷ "HOLD" ∷ []))) [
        | inl idle ↦ not_proposed _ _ (rw idle at k) refl q
        | inr active ↦ elim (Bool-cases (non_empty i.confirmed_ids)) [
          | inl models ↦ (models, decided-IsPlanned g i entry (rw (active, models, last) at k) q)
          | inr none_valid ↦ not_proposed _ _ (rw (active, none_valid) at k) refl q
        ]
      ]

  -- The stop on each side: the strategy's, or, where it gives none, one that lies the configured
  -- multiple of the average true range below the entry of a long and above the entry of a short.
  pub data IsStop (i : PlanInput W) (entry stop : W) : String → Type 0 where
    long_given : i.stop_long ≡ some stop → IsStop i entry stop "LONG"
    long_by_atr :
        (atr : W)
        → i.stop_long ≡ none
        → i.atr_14 ≡ some atr
        → stop ≡ entry ⊖ i.atr_fallback_multiplier ⊗ atr
        → IsStop i entry stop "LONG"
    short_given : i.stop_short ≡ some stop → IsStop i entry stop "SHORT"
    short_by_atr :
        (atr : W)
        → i.stop_short ≡ none
        → i.atr_14 ≡ some atr
        → stop ≡ entry ⊕ i.atr_fallback_multiplier ⊗ atr
        → IsStop i entry stop "SHORT"

  stop_of-IsStop :
      (i : PlanInput W) (b : Bool) (entry stop : W) (given atr : Option W)
      → (if b then i.stop_long else i.stop_short) ≡ given
      → i.atr_14 ≡ atr
      → stop_of i b entry ≡ some stop
      → IsStop i entry stop (side_name b)
  unfolding stop_of
  stop_of-IsStop i true entry stop (some s) a g h k = long_given (g ∙ (rw g at k))
  stop_of-IsStop i true entry stop none (some a) g h k =
      long_by_atr a g h (let same = rw (g, h) at k in cc)
  stop_of-IsStop i true entry stop none none g h k = cc (rw (g, h) at k)
  stop_of-IsStop i false entry stop (some s) a g h k = short_given (g ∙ (rw g at k))
  stop_of-IsStop i false entry stop none (some a) g h k =
      short_by_atr a g h (let same = rw (g, h) at k in cc)
  stop_of-IsStop i false entry stop none none g h k = cc (rw (g, h) at k)

  -- What the risk of a trade buys at the distance of the stop: the equity times the stricter of the
  -- limit on a trade and the strategy's percentage, over the distance.
  abbrev pub bought_by_risk : GlobalRiskLimits W → PlanInput W → W → W → W
  bought_by_risk g i entry stop =
      (i.equity ⊗ minimum g.max_trade_pct (i.risk_management.risk_per_trade_percent ⊘ f.dec 100 0))
      ⊘ f.abs (entry ⊖ stop)

  -- What the stricter of the limits on a trade and on a position allows at the entry.
  abbrev pub bought_by_caps : GlobalRiskLimits W → PlanInput W → W → W
  bought_by_caps g i entry = (i.equity ⊗ minimum g.max_trade_pct g.max_position_pct) ⊘ entry

  -- A plan that is proposed, where what the risk and the caps buy are numbers: the models are
  -- confirmed, the decision is the plan's side, the stop is the strategy's for that side or the one
  -- from the average true range and stands away from the entry, and the quantity exceeds neither
  -- what the risk of a trade buys at that distance nor what the caps on the notional allow.
  pub proposed_sizes :
      IsOrdered W
      → (g : GlobalRiskLimits W) (i : PlanInput W) (entry : W) {p : TradePlan W}
      → i.last_close ≡ some entry
      → plan g i ≡ ok p
      → p.status ≡ "PROPOSED"
      → (bought_by_risk g i entry (get_or p.stop_loss entry)
          <= bought_by_risk g i entry (get_or p.stop_loss entry))
        ≡ true
      → (bought_by_caps g i entry <= bought_by_caps g i entry) ≡ true
      → (stop : W) × (p.stop_loss ≡ some stop)
        × IsStop i entry stop p.side
        × (non_empty i.confirmed_ids ≡ true)
        × ((upper i.decision == p.side) ≡ true)
        × ((f.abs (entry ⊖ stop) <= nought) ≡ false)
        × ((p.quantity <= bought_by_risk g i entry stop) ≡ true)
        × ((p.quantity <= bought_by_caps g i entry) ≡ true)
  unfolding sized risk_quantity capped_quantity merge_effective_limits
  proposed_sizes o g i entry {p} last k q n m =
      let (models, planned) = plan-IsPlanned g i entry last k q in
      let number : (bought_by_risk g i entry planned.stop <= bought_by_risk g i entry planned.stop)
          ≡ true =
        rw (ap (λ (x : TradePlan W). x.stop_loss) planned.plan) at n in
      let sold = ap (λ (x : TradePlan W). x.quantity) planned.plan in
      let side = ap (λ (x : TradePlan W). x.side) planned.plan in
      (
        planned.stop,
        ap (λ (x : TradePlan W). x.stop_loss) planned.plan,
        rw side (stop_of-IsStop i planned.is_long entry planned.stop _ _ refl refl planned.stopped),
        models,
        rw side planned.decision,
        planned.distant,
        rw sold (minimum-le_left o _ _ number),
        rw sold (minimum-le_right o _ _ number m),
      )
