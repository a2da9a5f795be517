-- ===== src/Risk/Engine/Approval.antt =====
-- When `RiskEngine.evaluate` approves.
use crypto_trading_mcp.Prelude.{
  ◌≡◌, refl, ◌↔◌, Bool, true, false, ◌&&◌, not, Option, none, some, List, [], ◌∷◌, non_empty,
  is_some, leb, ap, all, arith, if◌then◌else◌,
}
use crypto_trading_mcp.Guarded.{
  fired, Quiet, fired-Quiet, Quiet-fired, Quiet-append, all-fired, all-append,
}
use crypto_trading_mcp.Float.{Float, ◌⊕◌, ◌⊗◌, ◌<=◌, ◌<<◌, ◌>=◌, ◌>>◌, nought, maximum}
use crypto_trading_mcp.Okf.Turnover.{in_cooldown}
use crypto_trading_mcp.Okf.Correlation.{CorrelationResult}
use crypto_trading_mcp.Risk.Models.{RiskReasonCode, TradeProposal, PortfolioRiskSnapshot, risk_ok}
use crypto_trading_mcp.Risk.Config.{
  StrategyRisk, OkfConstraints, EffectiveLimits, merge_effective_limits, pair_allowed,
}
use crypto_trading_mcp.Risk.Guards.{
  Guards, first_guards, stop_guards, reward_guards, limit_guards, bad_stop, low_reward,
  daily_loss_hit, exceeds, is_long,
}
use crypto_trading_mcp.Risk.Engine.{
  RiskEngine, Context, MemoryGateResult, correlation_guards, constraints, guards, okf_guards,
  memory_guards, evaluate,
}

abbrev pub is_risk_ok : RiskReasonCode → Bool
is_risk_ok risk_ok = true
is_risk_ok _ = false

abbrev is_blocking : Bool × RiskReasonCode → Bool
is_blocking g = not (is_risk_ok g.1)

-- No guard has the code RISK_OK.
abbrev blocking : Guards → Bool
blocking = all is_blocking

correlation-blocking : (r : Option CorrelationResult) → blocking (correlation_guards r) ≡ true
unfolding correlation_guards
correlation-blocking none = refl
correlation-blocking (some r) = ground arith

memory-blocking : (r : Option MemoryGateResult) → blocking (memory_guards r) ≡ true
unfolding memory_guards
memory-blocking none = refl
memory-blocking (some r) = refl

module _ {W : Type 0} ⦃f : Float W⦄ where
  abbrev pub limits_of : RiskEngine W → Option (StrategyRisk W) → Context W → EffectiveLimits W
  limits_of e strategy c = merge_effective_limits e.limits strategy (constraints e c)

  -- The conditions of an approval, one for each rule of the source, read off the merged limits `l`.
  pub record IsCleared (e : RiskEngine W) (p : TradeProposal W) (s : PortfolioRiskSnapshot W)
      (strategy : Option (StrategyRisk W)) (c : Context W) (l : EffectiveLimits W) : Type 0 where
    pub engine_alive : e.kill_switch.active ≡ false
    pub portfolio_alive : s.kill_switch_active ≡ false
    pub trading : s.trading_halted ≡ false
    pub fresh : p.market_data_stale ≡ false
    pub pair : pair_allowed p.symbol l.allowed_pairs ≡ true
    pub quantity : (p.quantity <= nought) ≡ false
    pub notional : (p.notional <= nought) ≡ false
    pub entry : (p.entry_price <= nought) ≡ false
    pub stop : elim p.stop_loss [ none ↦ l.require_stop_loss | some x ↦ bad_stop p x ] ≡ false
    pub reward :
        elim p.stop_loss [
          | none ↦ false
          | some x ↦ elim p.take_profit [ none ↦ false | some t ↦ low_reward l p x t ]
        ]
        ≡ false
    pub position_size : exceeds p.notional (maximum s.equity nought ⊗ l.max_position_pct) ≡ false
    pub trade_size : exceeds p.notional (maximum s.equity nought ⊗ l.max_trade_pct) ≡ false
    pub exposure :
        exceeds
          (s.positions_exposure ⊕ p.notional)
          (maximum s.equity nought ⊗ l.max_portfolio_exposure_pct)
        ≡ false
    pub daily_loss : daily_loss_hit l s (maximum s.equity nought) ≡ false
    pub drawdown : (s.drawdown_pct >= l.max_drawdown_pct) ≡ false
    pub trades : leb l.max_trades_per_day s.trades_today ≡ false
    pub cooldown : in_cooldown p.bars_since_last_trade l.cooldown_bars ≡ false
    pub slippage : (p.estimated_slippage_pct >> l.max_slippage_pct) ≡ false
    pub leverage : (p.leverage >> l.max_leverage) ≡ false
    pub liquidity :
        elim p.liquidity_usd [ none ↦ false | some u ↦ u << l.min_liquidity_usd ] ≡ false
    pub cash : (exceeds p.notional s.available_cash && is_long p.side) ≡ false
    pub confidence : (p.confidence << l.min_confidence) ≡ false
    pub model : non_empty p.model_ids ≡ true
    pub strategy_known : is_some strategy ≡ true
    pub guidelines : Quiet (okf_guards (constraints e c) p s c)
    pub memory : Quiet (memory_guards c.memory_gate_result)

  approved-Quiet :
      (e : RiskEngine W) (p : TradeProposal W) (s : PortfolioRiskSnapshot W)
      (strategy : Option (StrategyRisk W)) (c : Context W)
      → (evaluate e p s strategy c).approved ≡ true
      → Quiet (guards e (constraints e c) (limits_of e strategy c) p s (is_some strategy) c)
  unfolding evaluate
  approved-Quiet e p s strategy c h = fired-Quiet _ (not_true _ h)
    where
      not_true : (b : Bool) → not b ≡ true → b ≡ false
      not_true b k = ground arith

  first-Quiet :
      (killed : Bool) (l : EffectiveLimits W) (p : TradeProposal W) (s : PortfolioRiskSnapshot W)
      → Quiet (first_guards killed l p s)
      → (killed ≡ false)
        × (s.kill_switch_active ≡ false)
        × (s.trading_halted ≡ false)
        × (p.market_data_stale ≡ false)
        × (pair_allowed p.symbol l.allowed_pairs ≡ true)
        × ((p.quantity <= nought) ≡ false)
        × ((p.notional <= nought) ≡ false)
        × ((p.entry_price <= nought) ≡ false)
  unfolding first_guards
  first-Quiet killed l p s q = ground arith

  stop-Quiet :
      (l : EffectiveLimits W) (p : TradeProposal W)
      → Quiet (stop_guards l p)
      → elim p.stop_loss [ none ↦ l.require_stop_loss | some x ↦ bad_stop p x ] ≡ false
  unfolding stop_guards
  stop-Quiet l p q = ground arith

  reward-Quiet :
      (l : EffectiveLimits W) (p : TradeProposal W)
      → Quiet (reward_guards l p)
      → elim p.stop_loss [
        | none ↦ false
        | some x ↦ elim p.take_profit [ none ↦ false | some t ↦ low_reward l p x t ]
      ]
        ≡ false
  unfolding reward_guards
  reward-Quiet l p q = ground arith

  Quiet-first :
      (killed : Bool) (l : EffectiveLimits W) (p : TradeProposal W) (s : PortfolioRiskSnapshot W)
      → killed ≡ false
      → s.kill_switch_active ≡ false
      → s.trading_halted ≡ false
      → p.market_data_stale ≡ false
      → pair_allowed p.symbol l.allowed_pairs ≡ true
      → (p.quantity <= nought) ≡ false
      → (p.notional <= nought) ≡ false
      → (p.entry_price <= nought) ≡ false
      → Quiet (first_guards killed l p s)
  unfolding first_guards
  Quiet-first killed l p s a b c d g h i j = ground arith

  Quiet-stop :
      (l : EffectiveLimits W) (p : TradeProposal W)
      → elim p.stop_loss [ none ↦ l.require_stop_loss | some x ↦ bad_stop p x ] ≡ false
      → Quiet (stop_guards l p)
  unfolding stop_guards
  Quiet-stop l p h = ground arith

  Quiet-reward :
      (l : EffectiveLimits W) (p : TradeProposal W)
      → elim p.stop_loss [
        | none ↦ false
        | some x ↦ elim p.take_profit [ none ↦ false | some t ↦ low_reward l p x t ]
      ]
        ≡ false
      → Quiet (reward_guards l p)
  unfolding reward_guards
  Quiet-reward l p h = ground arith

  guards-blocking :
      (e : RiskEngine W) (k : Option (OkfConstraints W)) (l : EffectiveLimits W)
      (p : TradeProposal W) (s : PortfolioRiskSnapshot W) (known : Bool) (c : Context W)
      → blocking (guards e k l p s known c) ≡ true
  unfolding guards
  guards-blocking e k l p s known c = all-append is_blocking (first_guards _ l p s) _ (first _) (
      all-append is_blocking (stop_guards l p) _ stop (
        all-append is_blocking (reward_guards l p) _ reward (
          all-append is_blocking (limit_guards l p s _ known) _ (limits _) (
            all-append is_blocking (okf_guards k p s c) _ (okf k)
              (memory-blocking c.memory_gate_result)))))
    where
      first : (killed : Bool) → blocking (first_guards killed l p s) ≡ true
      first killed = unfold first_guards in refl

      stop : blocking (stop_guards l p) ≡ true
      stop = unfold stop_guards in ground arith

      reward : blocking (reward_guards l p) ≡ true
      reward = unfold reward_guards in ground arith

      limits : (equity : W) → blocking (limit_guards l p s equity known) ≡ true
      limits equity = unfold limit_guards in refl

      okf : (k' : Option (OkfConstraints W)) → blocking (okf_guards k' p s c) ≡ true
      okf none = unfold okf_guards in refl
      okf (some k') =
          unfold okf_guards in
          all-append is_blocking (correlation_guards _) _ (correlation-blocking _) refl

  -- The guards of `evaluate`, list by list.
  Parts :
      RiskEngine W
      → TradeProposal W
      → PortfolioRiskSnapshot W
      → Option (StrategyRisk W)
      → Context W
      → EffectiveLimits W
      → Type 0
  Parts e p s strategy c l =
      Quiet (first_guards e.kill_switch.active l p s)
      × Quiet (stop_guards l p)
      × Quiet (reward_guards l p)
      × Quiet (limit_guards l p s (maximum s.equity nought) (is_some strategy))
      × Quiet (okf_guards (constraints e c) p s c)
      × Quiet (memory_guards c.memory_gate_result)

  guards-Parts :
      (e : RiskEngine W) (p : TradeProposal W) (s : PortfolioRiskSnapshot W)
      (strategy : Option (StrategyRisk W)) (c : Context W) (l : EffectiveLimits W)
      → Quiet (guards e (constraints e c) l p s (is_some strategy) c) ↔ Parts e p s strategy c l
  unfolding guards Parts
  guards-Parts e p s strategy c l = (
    λ q.
        let a = (Quiet-append (first_guards e.kill_switch.active l p s) _).0 q in
        let b = (Quiet-append (stop_guards l p) _).0 a.1 in
        let d = (Quiet-append (reward_guards l p) _).0 b.1 in
        let g =
          (Quiet-append (limit_guards l p s (maximum s.equity nought) (is_some strategy)) _).0
            d.1 in
        let h = (Quiet-append (okf_guards (constraints e c) p s c) _).0 g.1 in
        (a.0, b.0, d.0, g.0, h.0, h.1),
    λ t. (Quiet-append (first_guards e.kill_switch.active l p s) _).1 (
      t.0,
      (Quiet-append (stop_guards l p) _).1 (
        t.1,
        (Quiet-append (reward_guards l p) _).1 (
          t.2,
          (Quiet-append (limit_guards l p s (maximum s.equity nought) (is_some strategy)) _).1
              (t.3, (Quiet-append (okf_guards (constraints e c) p s c) _).1 (t.4, t.5)),
        ),
      ),
    ),
  )

  module _ (e : RiskEngine W) (p : TradeProposal W) (s : PortfolioRiskSnapshot W)
      (strategy : Option (StrategyRisk W)) (c : Context W) where
    Parts-IsCleared :
        (l : EffectiveLimits W) → Parts e p s strategy c l → IsCleared e p s strategy c l
    unfolding Parts limit_guards
    Parts-IsCleared l (q, q1, q2, q3, q4, q5) =
        let first = first-Quiet e.kill_switch.active l p s q in
        record {
          engine_alive = first.0;
          portfolio_alive = first.1;
          trading = first.2;
          fresh = first.3;
          pair = first.4;
          quantity = first.5;
          notional = first.6;
          entry = first.7;
          stop = stop-Quiet l p q1;
          reward = reward-Quiet l p q2;
          position_size = q3.0;
          trade_size = q3.1.0;
          exposure = q3.1.1.0;
          daily_loss = q3.1.1.1.0;
          drawdown = q3.1.1.1.1.0;
          trades = q3.1.1.1.1.1.0;
          cooldown = q3.1.1.1.1.1.1.0;
          slippage = q3.1.1.1.1.1.1.1.0;
          leverage = q3.1.1.1.1.1.1.1.1.0;
          liquidity = q3.1.1.1.1.1.1.1.1.1.0;
          cash = q3.1.1.1.1.1.1.1.1.1.1.0;
          confidence = q3.1.1.1.1.1.1.1.1.1.1.1.0;
          model = not_false _ q3.1.1.1.1.1.1.1.1.1.1.1.1.0;
          strategy_known = not_false _ q3.1.1.1.1.1.1.1.1.1.1.1.1.1.0;
          guidelines = q4;
          memory = q5;
        }
      where
        not_false : (b : Bool) → not b ≡ false → b ≡ true
        not_false b k = ground arith

    IsCleared-Parts :
        (l : EffectiveLimits W) → IsCleared e p s strategy c l → Parts e p s strategy c l
    unfolding Parts limit_guards
    IsCleared-Parts l r = (
      Quiet-first _ l p s r.engine_alive r.portfolio_alive r.trading r.fresh r.pair r.quantity
          r.notional r.entry,
      Quiet-stop l p r.stop,
      Quiet-reward l p r.reward,
      (
        r.position_size,
        (
          r.trade_size,
          (
            r.exposure,
            (
              r.daily_loss,
              (
                r.drawdown,
                (
                  r.trades,
                  (
                    r.cooldown,
                    (
                      r.slippage,
                      (
                        r.leverage,
                        (
                          r.liquidity,
                          (r.cash, (r.confidence, (ap not r.model, (ap not r.strategy_known, tt)))),
                        ),
                      ),
                    ),
                  ),
                ),
              ),
            ),
          ),
        ),
      ),
      r.guidelines,
      r.memory,
    )

    -- `evaluate` approves exactly the proposals that every rule clears: both kill switches off, no
    -- halt, fresh data, an allowed pair, positive sizes, a stop where one is required and on the right
    -- side of the entry, enough reward for the risk, every limit of the merged limits respected, and
    -- no objection of the guidelines or the memory gate.
    pub approved_iff :
        ((evaluate e p s strategy c).approved ≡ true)
        ↔ IsCleared e p s strategy c (limits_of e strategy c)
    unfolding evaluate
    approved_iff =
        let l = limits_of e strategy c in
        let iff = guards-Parts e p s strategy c l in
        (
          λ h. Parts-IsCleared l (iff.0 (approved-Quiet e p s strategy c h)),
          λ r. ap not (Quiet-fired _ (iff.1 (IsCleared-Parts l r))),
        )

    -- The reason codes are RISK_OK alone after an approval; after a refusal there is at least one,
    -- and none of them is RISK_OK.
    pub reason_codes_lem :
        if (evaluate e p s strategy c).approved
        then (evaluate e p s strategy c).reason_codes ≡ risk_ok ∷ []
        else (non_empty (evaluate e p s strategy c).reason_codes ≡ true)
          × (all (λ r. not (is_risk_ok r)) (evaluate e p s strategy c).reason_codes ≡ true)
    unfolding evaluate
    reason_codes_lem = by_cases (fired _) (
        all-fired (λ r. not (is_risk_ok r)) _
          (guards-blocking e _ (limits_of e strategy c) p s _ c))
      where
        by_cases :
            (rs : List RiskReasonCode)
            → all (λ r. not (is_risk_ok r)) rs ≡ true
            → if not (non_empty rs)
              then (if non_empty rs then rs else risk_ok ∷ []) ≡ risk_ok ∷ []
              else (non_empty (if non_empty rs then rs else risk_ok ∷ []) ≡ true)
                × (all (λ r. not (is_risk_ok r)) (if non_empty rs then rs else risk_ok ∷ []) ≡ true)
        by_cases [] h = refl
        by_cases (r ∷ rs) h = (refl, h)

    -- The codes are those of the guards that fire, and RISK_OK where none does.
    pub evaluate-reason_codes :
        let blocking =
          fired (guards e (constraints e c) (limits_of e strategy c) p s (is_some strategy) c) in
        (evaluate e p s strategy c).reason_codes
        ≡ (if non_empty blocking then blocking else risk_ok ∷ [])
    unfolding evaluate
    evaluate-reason_codes = refl
