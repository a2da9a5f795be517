-- ===== src/Live/Gate.antt =====
-- crypto_trading_mcp/live/policy.py and gate.py: the policy and `LiveTradingGate`.
pub mod Approval
use crypto_trading_mcp.Prelude.{
  String, Bool, true, false, ◌||◌, ◌&&◌, not, List, [], ◌∷◌, ◌++◌, map, ◌==◌, one_of, any,
  non_empty, if◌then◌else◌,
}
use crypto_trading_mcp.Text.{upper, lower, strip}
use crypto_trading_mcp.Guarded.{Guarded, fired}
use crypto_trading_mcp.Live.Stages.{TradingStage, is_live_stage}

pub data LiveGateReason : Type 0 where
  gate_ok mode_blocked flag_blocked stage_not_allowed credential_failure : LiveGateReason
  permission_failure market_data_stale exchange_unavailable risk_engine_failure : LiveGateReason
  reconciliation_failure kill_switch daily_loss drawdown position_limit exposure_limit :
      LiveGateReason
  duplicate_order clock_skew invalid_order exchange_not_allowlisted : LiveGateReason
  instrument_not_allowlisted cloud_paper_isolation : LiveGateReason

pub record LiveExecutionPolicy : Type 0 where
  pub trading_mode : String
  pub live_trading_enabled : Bool
  pub stage : TradingStage
  pub kill_switch_active : Bool
  pub exchange_allowlist : List String
  pub instrument_allowlist : List String
  pub credentials_healthy : Bool
  pub credentials_allow_trading : Bool
  pub market_data_fresh : Bool
  pub exchange_healthy : Bool
  pub risk_engine_healthy : Bool
  pub reconciliation_ok : Bool
  pub clock_skew_ok : Bool
  pub idempotency_ok : Bool
  pub order_valid : Bool
  pub daily_loss_ok : Bool
  pub drawdown_ok : Bool
  pub exposure_ok : Bool
  pub position_ok : Bool
  pub duplicate : Bool
  pub cloud_paper_isolated : Bool
  pub exchange : String
  pub symbol : String

-- `exch not in {e.lower() …}`
abbrev pub exchange_listed : LiveExecutionPolicy → Bool
exchange_listed p = one_of (strip (lower p.exchange)) (map lower p.exchange_allowlist)

-- A list and a symbol are given, and the symbol is not on the list.
abbrev pub instrument_unlisted : LiveExecutionPolicy → Bool
instrument_unlisted p =
    non_empty p.instrument_allowlist
    && not (p.symbol == "")
    && not (one_of (upper p.symbol) (map upper p.instrument_allowlist))

gate_guards : LiveExecutionPolicy → Guarded LiveGateReason
gate_guards p =
    (p.cloud_paper_isolated, cloud_paper_isolation)
    ∷ (not (p.trading_mode == "live"), mode_blocked)
    ∷ (not p.live_trading_enabled, flag_blocked)
    ∷ (not (is_live_stage p.stage), stage_not_allowed)
    ∷ (p.kill_switch_active, kill_switch)
    ∷ (not p.credentials_healthy, credential_failure)
    ∷ (not p.credentials_allow_trading, permission_failure)
    ∷ (not p.market_data_fresh, market_data_stale)
    ∷ (not p.exchange_healthy, exchange_unavailable)
    ∷ (not p.risk_engine_healthy, risk_engine_failure)
    ∷ (not p.reconciliation_ok, reconciliation_failure)
    ∷ (not p.clock_skew_ok, clock_skew)
    ∷ (not p.idempotency_ok || p.duplicate, duplicate_order)
    ∷ (not p.order_valid, invalid_order)
    ∷ (not p.daily_loss_ok, daily_loss)
    ∷ (not p.drawdown_ok, drawdown)
    ∷ (not p.position_ok, position_limit)
    ∷ (not p.exposure_ok, exposure_limit)
    ∷ (not (exchange_listed p), exchange_not_allowlisted)
    ∷ (instrument_unlisted p, instrument_not_allowlisted)
    ∷ []

abbrev is_mode_blocked : LiveGateReason → Bool
is_mode_blocked mode_blocked = true
is_mode_blocked _ = false

abbrev is_flag_blocked : LiveGateReason → Bool
is_flag_blocked flag_blocked = true
is_flag_blocked _ = false

-- A reason that is appended unless the list has it.
add_missing : (LiveGateReason → Bool) → LiveGateReason → List LiveGateReason → List LiveGateReason
add_missing is_it r rs = if any is_it rs then rs else rs ++ r ∷ []

-- The block under `trading_mode != "live" or not live_trading_enabled`.
blocked_reasons : LiveExecutionPolicy → List LiveGateReason → List LiveGateReason
unfolding add_missing
blocked_reasons p rs =
    let rs' = add_missing is_mode_blocked mode_blocked rs in
    if not p.live_trading_enabled then add_missing is_flag_blocked flag_blocked rs' else rs'

pub record GateResult : Type 0 where
  pub approved : Bool
  pub reason_codes : List LiveGateReason
  pub trading_mode : String
  pub live_trading_enabled : Bool
  pub stage : TradingStage

result : LiveExecutionPolicy → Bool → List LiveGateReason → GateResult
result p approved rs = record {
  approved = approved;
  reason_codes = if approved then gate_ok ∷ [] else rs;
  trading_mode = p.trading_mode;
  live_trading_enabled = p.live_trading_enabled;
  stage = p.stage;
}

-- LiveTradingGate.evaluate
pub evaluate : LiveExecutionPolicy → GateResult
unfolding blocked_reasons result
evaluate p =
    let reasons = fired (gate_guards p) in
    if not (p.trading_mode == "live") || not p.live_trading_enabled
    then result p false (blocked_reasons p reasons)
    else result p (not (non_empty reasons)) reasons
