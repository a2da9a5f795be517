-- ===== src/PaperTrading/Engine.antt =====
-- crypto_trading_mcp/paper/engine.py: the attributes of `PaperTradingEngine` and its methods but the
-- execution of plans. Whether the STOP file exists is an argument, as is the clock. The settings and
-- the configuration are read once and given here as values.
use Prim.Native.Char.{Char, code}
use Prim.Native.String.{◌++◌ as join}
use text.Mathlib.Text.{starts_with}
use crypto_trading_mcp.Prelude.{
  ℕ, String, Bool, true, false, ◌||◌, ◌&&◌, not, Option, none, some, List, [], ◌∷◌, ◌==◌, eqb,
  length, if◌then◌else◌,
}
use crypto_trading_mcp.Text.{upper, wildcard_stem}
use crypto_trading_mcp.Dict.{Dict, get}
use crypto_trading_mcp.Errors.{Result, ok, err, runtime_error, index_error}
use crypto_trading_mcp.Float.{Float, nought}
use crypto_trading_mcp.Compliance.{
  ComplianceConfig, TaxSimulationConfig, ComplianceDecision, ComplianceReason,
}
use crypto_trading_mcp.Risk.Models.{GlobalRiskLimits, RiskReasonCode}
use crypto_trading_mcp.Risk.Config
use crypto_trading_mcp.Risk.Config.{KillSwitch, OkfConstraints}
use crypto_trading_mcp.Exchange.Ids.{truthy}
use crypto_trading_mcp.Portfolio.Manager
use crypto_trading_mcp.Portfolio.Manager.{Position, PortfolioSnapshot}
use crypto_trading_mcp.Exchange.Paper.State
use crypto_trading_mcp.Exchange.Paper.State.{PaperExchange, PaperConfig, get_open_orders}
use crypto_trading_mcp.PaperTrading.Ledger.{
  PaperSession, SessionStatus, PaperStore, complete, save_event, save_session,
  kill_switch_triggered,
}

pub record EngineConfig (W : Type 0) : Type 0 where
  pub trading_mode : String
  pub live_trading_enabled : Bool
  pub exchange : PaperConfig W
  pub session_id_prefix : String
  pub kill_switch_path : String
  pub strategy_conflict_mode : String
  pub symbol_strategy_map : Dict String
  pub config_hash : String

-- The risk engine's verdict, or the objections that came before it.
pub data RiskResult : Type 0 where
  not_asked : List ComplianceReason → RiskResult
  asked : Bool → List RiskReasonCode → RiskResult

-- A decision of `execute_approved_plan`; the texts of the agents, which it only copies, are left out.
pub record AgentDecisionRecord : Type 0 where
  pub run_id : String
  pub strategy_selected : String
  pub compliance_result : ComplianceDecision
  pub risk_result : RiskResult
  pub executed : Bool

-- `kill_switch` is the object that the risk engine holds too.
pub record PaperTradingEngine (W : Type 0) : Type 0 where
  pub config : EngineConfig W
  pub session : PaperSession W
  pub exchange : PaperExchange W
  pub kill_switch : KillSwitch
  pub risk_limits : GlobalRiskLimits W
  pub okf_resolved : Option (OkfConstraints W)
  pub compliance : ComplianceConfig W
  pub tax : TaxSimulationConfig W
  pub max_correlation : W
  pub store : PaperStore W
  pub running : Bool
  pub decision_log : List AgentDecisionRecord
  pub daily_turnover : W
  pub strategy_books : Dict (List String)
  pub return_history : Dict (List W)

-- What `status` reports.
pub record EngineStatus (W : Type 0) : Type 0 where
  pub running : Bool
  pub session : PaperSession W
  pub kill_switch : KillSwitch
  pub exchange_halted : Bool
  pub halt_reason : Option String
  pub cash : W
  pub equity : W
  pub positions : ℕ
  pub open_orders : ℕ
  pub trades : ℕ
  pub daily_turnover : W

pub data Conflict : Type 0 where
  no_conflict separate_strategy_book netted strategy_conflict : Conflict

-- text[0]
abbrev initial : String → Option Char
initial String.[] = none
initial (String.◌∷◌ c s) = some c

-- The loop over the patterns of the map.
by_pattern : String → Dict String → Option String
by_pattern sym [] = none
by_pattern sym ((pattern, strategy) ∷ rest) = elim (wildcard_stem pattern) [
  | none ↦ by_pattern sym rest
  | some stem ↦ if starts_with sym (upper stem) then some strategy else by_pattern sym rest
]

-- resolve_strategy_for_symbol of exchange/config.py
unfoldable pub resolve_strategy_for_symbol : String → Dict String → Option String
unfolding by_pattern
resolve_strategy_for_symbol symbol mapping = elim (get (upper symbol) mapping) [
  | some strategy ↦ some strategy
  | none ↦ by_pattern (upper symbol) mapping
]

-- `existing.side[0] != new_side[0] and existing.side != new_side`; an empty text raises.
opposed : String → String → Result Bool
opposed side new_side = elim (initial side) [
  | none ↦ err index_error
  | some a ↦ elim (initial new_side) [
    | none ↦ err index_error
    | some b ↦ ok (not (eqb (code a) (code b)) && not (side == new_side))
  ]
]

-- `existing.strategy_id and existing.strategy_id != strategy_id`
abbrev is_foreign : Option String → String → Bool
is_foreign none strategy_id = false
is_foreign (some s) strategy_id = not (s == strategy_id)

module _ {W : Type 0} where
  -- PaperTradingEngine._check_stop_file
  unfoldable pub check_stop_file : Bool → PaperTradingEngine W → PaperTradingEngine W
  check_stop_file present e =
      let path = e.config.kill_switch_path in
      if present
      then record e {
        kill_switch = Config.activate (join "STOP file detected at " path) e.kill_switch;
        exchange = State.halt "KILL_SWITCH_ACTIVE" e.exchange;
        session = record e.session { status = SessionStatus.killed };
        store =
            save_event (e.session.session_id, kill_switch_triggered (join "STOP file at " path))
              e.store;
      }
      else e

  -- settings.trading_mode != "paper" or settings.live_trading_enabled
  abbrev pub not_paper : PaperTradingEngine W → Bool
  not_paper e = not (e.config.trading_mode == "paper") || e.config.live_trading_enabled

  -- PaperTradingEngine.select_strategy
  abbrev pub select_strategy : String → PaperTradingEngine W → Option String
  select_strategy symbol e = resolve_strategy_for_symbol symbol e.config.symbol_strategy_map

  -- PaperTradingEngine.resolve_conflict, at the position that is held
  pub conflict_with : String → String → String → Position W → Result Conflict
  unfolding opposed
  conflict_with mode new_side strategy_id p =
      if is_foreign (truthy p.strategy_id) strategy_id
      then ok (
          if mode == "SEPARATE_STRATEGY_BOOK"
          then separate_strategy_book
          else if mode == "NETTED"
          then netted
          else strategy_conflict)
      else elim (opposed p.side new_side) [
        | err e ↦ err e
        | ok against ↦ ok (
            if against
            then (if mode == "NETTED" then netted else strategy_conflict)
            else no_conflict)
      ]

  -- PaperTradingEngine.resolve_conflict
  unfoldable pub resolve_conflict :
      String → String → String → PaperTradingEngine W → Result Conflict
  resolve_conflict symbol new_side strategy_id e =
      elim (get (upper symbol) e.exchange.portfolio.positions) [
        | none ↦ ok no_conflict
        | some p ↦ conflict_with e.config.strategy_conflict_mode new_side strategy_id p
      ]

module _ {W : Type 0} ⦃f : Float W⦄ where
  -- self.exchange.portfolio.snapshot(self.exchange.prices)
  unfoldable pub refresh : PaperTradingEngine W → PortfolioSnapshot W × PaperTradingEngine W
  refresh e =
      let (snap, m) = Manager.snapshot e.exchange.prices e.exchange.portfolio in
      (snap, record e { exchange = record e.exchange { portfolio = m } })

  -- PaperTradingEngine.status
  unfoldable pub status : PaperTradingEngine W → EngineStatus W × PaperTradingEngine W
  status e =
      let (snap, e') = refresh e in
      (
        record {
          running = e'.running;
          session = e'.session;
          kill_switch = e'.kill_switch;
          exchange_halted = e'.exchange.halted;
          halt_reason = e'.exchange.halt_reason;
          cash = snap.cash;
          equity = snap.equity;
          positions = length snap.positions;
          open_orders = length (get_open_orders none e'.exchange);
          trades = length e'.exchange.trades;
          daily_turnover = e'.daily_turnover;
        },
        e',
      )

  -- PaperTradingEngine.start
  unfoldable pub start :
      Bool → PaperTradingEngine W → Result (EngineStatus W) × PaperTradingEngine W
  start stop_file e =
      let e' = check_stop_file stop_file e in
      let killed = status (record e' { running = false }) in
      let started = status (record e' {
        running = true;
        session = record e'.session { status = SessionStatus.active };
      }) in
      if not_paper e'
      then (err runtime_error, e')
      else if e'.kill_switch.active
      then (ok killed.0, killed.1)
      else (ok started.0, started.1)

  -- PaperTradingEngine.stop
  unfoldable pub stop : String → PaperTradingEngine W → EngineStatus W × PaperTradingEngine W
  stop now e =
      let (snap, e') = refresh (record e { running = false }) in
      let session = complete snap.equity SessionStatus.stopped now e'.session in
      status (record e' { session = session; store = save_session session e'.store })

  -- PaperTradingEngine.safe_restart: none where the STOP file is there
  unfoldable pub safe_restart :
      Bool → PaperTradingEngine W → Option (EngineStatus W) × PaperTradingEngine W
  safe_restart stop_file e =
      let switch =
        if e.kill_switch.active then (Config.deactivate true e.kill_switch).1 else e.kill_switch in
      let (report, e') = status (record e {
        kill_switch = switch;
        exchange = State.reset_halt e.exchange;
        session = record e.session { status = SessionStatus.active };
        running = true;
      }) in
      if stop_file then (none, e) else (some report, e')

  -- PaperTradingEngine.reset, with the identifier of the new session
  unfoldable pub reset :
      String → String → PaperTradingEngine W → EngineStatus W × PaperTradingEngine W
  reset session_id now e =
      let session : PaperSession W = record {
        session_id = session_id;
        started_at = now;
        ended_at = none;
        starting_capital = e.config.exchange.initial_cash;
        ending_equity = none;
        strategy_versions = [];
        config_hash = e.config.config_hash;
        status = SessionStatus.active;
      } in
      status (record e {
        session = session;
        exchange = State.new e.config.exchange session_id;
        decision_log = [];
        daily_turnover = nought;
        strategy_books = [];
        return_history = [];
        running = false;
        store = save_session session e.store;
      })
