-- ===== src/Live/Stages.antt =====
-- crypto_trading_mcp/live/stages.py: the stages of trading and `TradingStageManager`.
pub mod Audit
use crypto_trading_mcp.Prelude.{
  ℕ, ◌+◌, String, Bool, true, false, ◌||◌, List, [], ◌∷◌, ◌++◌, length, eqb, ltb, leb,
  if◌then◌else◌,
}
use crypto_trading_mcp.Text.{is_blank}
use crypto_trading_mcp.Errors.{Result, ok, err, stage_promotion_error}

pub data TradingStage : Type 0 where
  stage_0_backtest stage_1_local_paper stage_2_cloud_paper : TradingStage
  stage_3_production_read_only stage_4_live_dry_run : TradingStage
  stage_5_controlled_live stage_6_autonomous_live : TradingStage

-- TradingStageManager.index: the place in `_ORDER`
unfoldable pub index : TradingStage → ℕ
index stage_0_backtest = 0
index stage_1_local_paper = 1
index stage_2_cloud_paper = 2
index stage_3_production_read_only = 3
index stage_4_live_dry_run = 4
index stage_5_controlled_live = 5
index stage_6_autonomous_live = 6

pub data Action : Type 0 where
  demote promote_action : Action

pub record Entry : Type 0 where
  pub from_stage : TradingStage
  pub to_stage : TradingStage
  pub operator : String
  pub evidence : String
  pub action : Action

pub record TradingStageManager : Type 0 where
  pub current : TradingStage
  pub history : List Entry

-- `{"promoted": …}`
pub data Promotion : Type 0 where
  already_at_stage demoted promoted : Promotion

abbrev pub is_live_stage : TradingStage → Bool
is_live_stage stage_5_controlled_live = true
is_live_stage stage_6_autonomous_live = true
is_live_stage _ = false

-- TradingStageManager.allows_live_orders
abbrev pub allows_live_orders : TradingStageManager → Bool
allows_live_orders m = is_live_stage m.current

-- TradingStageManager.allows_production_reads
abbrev pub allows_production_reads : TradingStageManager → Bool
allows_production_reads m = leb (index stage_3_production_read_only) (index m.current)

unfoldable pub moved :
    TradingStage → String → String → Action → TradingStageManager → TradingStageManager
moved target operator evidence action m = record {
  current = target;
  history =
      m.history
      ++ record {
        from_stage = m.current;
        to_stage = target;
        operator = operator;
        evidence = evidence;
        action = action;
      }
        ∷ [];
}

-- TradingStageManager.promote
unfoldable pub promote :
    TradingStage
    → String
    → String
    → Bool
    → TradingStageManager
    → Result Promotion × TradingStageManager
unfolding moved
promote target operator evidence force_skip m =
    let cur = index m.current in
    let tgt = index target in
    if force_skip
    then (err stage_promotion_error, m)
    else if eqb tgt cur
    then (ok already_at_stage, m)
    else if ltb tgt cur
    then (ok demoted, moved target operator evidence demote m)
    else if ltb (cur + 1) tgt
    then (err stage_promotion_error, m)
    else if is_blank evidence
    then (err stage_promotion_error, m)
    else if is_blank operator
    then (err stage_promotion_error, m)
    else (ok promoted, moved target operator evidence promote_action m)

-- The arguments of a call of `promote`.
pub record Request : Type 0 where
  pub target : TradingStage
  pub operator : String
  pub evidence : String
  pub force_skip : Bool

-- Calls of `promote` whose exceptions the caller survives.
unfoldable pub drive : TradingStageManager → List Request → TradingStageManager
drive m [] = m
drive m (r ∷ rs) = drive (promote r.target r.operator r.evidence r.force_skip m).1 rs
