-- ===== src/Live/Gate/Approval.antt =====
-- When the live gate approves.
use crypto_trading_mcp.Prelude.{
  ◌≡◌, ◌↔◌, Bool, true, false, ◌||◌, not, ◌==◌, non_empty, arith, Bool-cases, inl, inr,
}
use crypto_trading_mcp.Guarded.{fired, Quiet, fired-Quiet, Quiet-fired}
use crypto_trading_mcp.Live.Stages.{is_live_stage}
use crypto_trading_mcp.Live.Gate.{
  LiveExecutionPolicy, evaluate, result, gate_guards, exchange_listed, instrument_unlisted,
}

-- Everything that live trading needs.
pub record IsReady (p : LiveExecutionPolicy) : Type 0 where
  pub connected : p.cloud_paper_isolated ≡ false
  pub mode : (p.trading_mode == "live") ≡ true
  pub flag : p.live_trading_enabled ≡ true
  pub stage : is_live_stage p.stage ≡ true
  pub alive : p.kill_switch_active ≡ false
  pub credentials : p.credentials_healthy ≡ true
  pub permission : p.credentials_allow_trading ≡ true
  pub fresh : p.market_data_fresh ≡ true
  pub exchange_up : p.exchange_healthy ≡ true
  pub risk_engine : p.risk_engine_healthy ≡ true
  pub reconciled : p.reconciliation_ok ≡ true
  pub clock : p.clock_skew_ok ≡ true
  pub idempotent : p.idempotency_ok ≡ true
  pub unique : p.duplicate ≡ false
  pub order : p.order_valid ≡ true
  pub loss : p.daily_loss_ok ≡ true
  pub drawdown : p.drawdown_ok ≡ true
  pub position : p.position_ok ≡ true
  pub exposure : p.exposure_ok ≡ true
  pub venue : exchange_listed p ≡ true
  pub instrument : instrument_unlisted p ≡ false

Quiet-IsReady : (p : LiveExecutionPolicy) → Quiet (gate_guards p) → IsReady p
unfolding gate_guards
Quiet-IsReady p q = ground arith

IsReady-Quiet : (p : LiveExecutionPolicy) → IsReady p → Quiet (gate_guards p)
unfolding gate_guards
IsReady-Quiet p r = ground arith

approved_quiet :
    (p : LiveExecutionPolicy)
    → (evaluate p).approved ≡ true
    → non_empty (fired (gate_guards p)) ≡ false
unfolding evaluate result
approved_quiet p h =
    elim (Bool-cases (not (p.trading_mode == "live") || not p.live_trading_enabled)) [
      | inl blocked ↦ cc (rw (blocked, evaluate) at h)
      | inr granted ↦ not_true _ (rw (granted, evaluate) at h)
    ]
  where
    not_true : (b : Bool) → not b ≡ true → b ≡ false
    not_true b k = ground arith

ready_approved : (p : LiveExecutionPolicy) → IsReady p → (evaluate p).approved ≡ true
unfolding evaluate result
ready_approved p r = simp (r.mode, r.flag, Quiet-fired (gate_guards p) (IsReady-Quiet p r))

-- The gate approves live execution exactly when everything is ready: live mode and the flag, a live
-- stage, no kill switch, and each of the checks.
pub gate_approved_iff : (p : LiveExecutionPolicy) → ((evaluate p).approved ≡ true) ↔ IsReady p
gate_approved_iff p =
    (λ h. Quiet-IsReady p (fired-Quiet (gate_guards p) (approved_quiet p h)), ready_approved p)
