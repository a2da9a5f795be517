-- ===== src/Tests/Live.antt =====
-- The controls of live trading at concrete inputs.
use crypto_trading_mcp.Prelude.{◌≡◌, refl, ◌↔◌, true, false, none, some, List, [], ◌∷◌, any, arith}
use crypto_trading_mcp.Errors.{err, runtime_error}
use crypto_trading_mcp.Text.{is_blank}
use crypto_trading_mcp.Persistence.{Rows, memory_store}
use crypto_trading_mcp.Live.Stages.{
  TradingStage, Request, stage_2_cloud_paper, stage_3_production_read_only, stage_4_live_dry_run,
  stage_5_controlled_live, index, moved, promote, drive,
}
use crypto_trading_mcp.Live.Stages.Audit.{fresh, attests, live_is_audited}
use crypto_trading_mcp.Live.Gate.{LiveExecutionPolicy, evaluate}
use crypto_trading_mcp.Live.Gate.Approval.{IsReady, gate_approved_iff}
use crypto_trading_mcp.Live.KillSwitch.{KillRow, DurableKillSwitch, activate, allows_new_trades}
use crypto_trading_mcp.Live.KillSwitch.Durable
use crypto_trading_mcp.Live.KillSwitch.Durable.{Event, restart, deactivation, activate_blocks}

abbrev request : TradingStage → Request
request target = record {
  target = target;
  operator = "operator";
  evidence = "report";
  force_skip = false;
}

-- A climb to a live stage, with one request that skips a stage and is refused.
abbrev climb : List Request
climb =
    request stage_2_cloud_paper
    ∷ request stage_4_live_dry_run
    ∷ request stage_3_production_read_only
    ∷ request stage_4_live_dry_run
    ∷ request stage_5_controlled_live
    ∷ []

live_is_audited_example : any (attests 4) (drive fresh climb).history ≡ true
unfolding drive promote moved index is_blank
live_is_audited_example = live_is_audited climb 4 refl (omega arith) (omega arith)

abbrev policy : LiveExecutionPolicy
policy = record {
  trading_mode = "live";
  live_trading_enabled = true;
  stage = stage_5_controlled_live;
  kill_switch_active = false;
  exchange_allowlist = "delta_india" ∷ [];
  instrument_allowlist = [];
  credentials_healthy = true;
  credentials_allow_trading = true;
  market_data_fresh = true;
  exchange_healthy = true;
  risk_engine_healthy = true;
  reconciliation_ok = true;
  clock_skew_ok = true;
  idempotency_ok = true;
  order_valid = true;
  daily_loss_ok = true;
  drawdown_ok = true;
  exposure_ok = true;
  position_ok = true;
  duplicate = false;
  cloud_paper_isolated = false;
  exchange = "delta_india";
  symbol = "BTC/USD";
}

gate_approved_iff_example : ((evaluate policy).approved ≡ true) ↔ IsReady policy
gate_approved_iff_example = gate_approved_iff policy

abbrev switch : DurableKillSwitch (Rows KillRow)
switch = record {
  store = [];
  inner = record { base = record { active = false; reason = none }; last_cancel_result = none };
}

abbrev events : List Event
events = restart ∷ deactivation false ∷ restart ∷ []

-- The cancelling of orders fails, and the process is restarted.
activate_blocks_example :
    allows_new_trades memory_store (
      Durable.drive memory_store
        (activate memory_store "drawdown" (some (err runtime_error)) "10:00" switch)
        events)
    ≡ false
activate_blocks_example =
    activate_blocks memory_store "drawdown" (some (err runtime_error)) "10:00" switch events refl
