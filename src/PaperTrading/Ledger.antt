-- ===== src/PaperTrading/Ledger.antt =====
-- crypto_trading_mcp/paper/session.py and persistence.py: `PaperSession` and `InMemoryPaperStore`. The
-- records carry no time stamps; the SQLite store is not modelled.
use crypto_trading_mcp.Prelude.{String, Bool, Option, some, List, [], ◌∷◌, ◌++◌}
use crypto_trading_mcp.Dict.{Dict}
use crypto_trading_mcp.Exchange.Models.{Order, Fill}
use crypto_trading_mcp.Exchange.Paper.State.{Trade}
use crypto_trading_mcp.Portfolio.Manager.{PortfolioSnapshot}
use crypto_trading_mcp.Risk.Models.{RiskReasonCode}

pub data SessionStatus : Type 0 where
  active stopped completed killed : SessionStatus

pub record PaperSession (W : Type 0) : Type 0 where
  pub session_id : String
  pub started_at : String
  pub ended_at : Option String
  pub starting_capital : W
  pub ending_equity : Option W
  pub strategy_versions : Dict String
  pub config_hash : String
  pub status : SessionStatus

-- PaperSession.complete
abbrev pub complete : {W : Type 0} → W → SessionStatus → String → PaperSession W → PaperSession W
complete ending_equity status now s = record s {
  ended_at = some now;
  ending_equity = some ending_equity;
  status = status;
}

pub data EngineEvent : Type 0 where
  kill_switch_triggered : String → EngineEvent
  -- RISK_VALIDATED, with the reason codes of a refusal
  risk_validated : Bool → List RiskReasonCode → EngineEvent
  trade_planned : String → String → EngineEvent
  agent_analysis_completed : String → EngineEvent

pub record PaperStore (W : Type 0) : Type 0 where
  -- Events and snapshots stand with their session.
  pub events : List (String × EngineEvent)
  pub orders : List (Order W)
  pub fills : List (Fill W)
  pub trades : List (Trade W)
  pub snapshots : List (String × PortfolioSnapshot W)
  pub sessions : List (PaperSession W)

module _ {W : Type 0} where
  -- InMemoryPaperStore.save_event, save_order, save_fill, save_snapshot and save_session
  abbrev pub save_event : String × EngineEvent → PaperStore W → PaperStore W
  save_event event s = record s { events = s.events ++ event ∷ [] }

  abbrev pub save_order : Order W → PaperStore W → PaperStore W
  save_order order s = record s { orders = s.orders ++ order ∷ [] }

  abbrev pub save_fill : Fill W → PaperStore W → PaperStore W
  save_fill fill s = record s { fills = s.fills ++ fill ∷ [] }

  abbrev pub save_snapshot : String × PortfolioSnapshot W → PaperStore W → PaperStore W
  save_snapshot snapshot s = record s { snapshots = s.snapshots ++ snapshot ∷ [] }

  abbrev pub save_session : PaperSession W → PaperStore W → PaperStore W
  save_session session s = record s { sessions = s.sessions ++ session ∷ [] }
