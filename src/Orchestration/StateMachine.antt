-- ===== src/Orchestration/StateMachine.antt =====
-- src/crypto_trading_mcp/orchestration/state_machine.py: the analysis phase. The states EXECUTING,
-- EXECUTED, MONITORING, CLOSED and REFLECTING have no entry in the table, so no target is allowed.
use crypto_trading_mcp.Prelude.{◌≡◌, refl, Bool, true, false, ◌||◌, List, [], ◌∷◌, arith, all}
use crypto_trading_mcp.Errors.{Result, ok}
use crypto_trading_mcp.Machine
use crypto_trading_mcp.Machine.{contains}

pub data TradingState : Type 0 where
  idle scanning analyzing debating risk_review trade_planned : TradingState
  executing executed monitoring closed reflecting failed halted : TradingState

unfoldable pub TradingState-discrete : Discrete TradingState
TradingState-discrete = hlevel

-- ANALYSIS_TRANSITIONS.get(state, set())
unfoldable pub analysis_transitions : TradingState → List TradingState
analysis_transitions idle = scanning ∷ halted ∷ []
analysis_transitions scanning = analyzing ∷ failed ∷ halted ∷ []
analysis_transitions analyzing = debating ∷ failed ∷ halted ∷ []
analysis_transitions debating = idle ∷ failed ∷ halted ∷ risk_review ∷ []
analysis_transitions risk_review = idle ∷ failed ∷ halted ∷ trade_planned ∷ []
analysis_transitions trade_planned = idle ∷ failed ∷ halted ∷ []
analysis_transitions failed = idle ∷ halted ∷ []
analysis_transitions halted = idle ∷ []
analysis_transitions _ = []

-- StateMachine.transition, over a sequence of calls
unfoldable pub run_analysis : TradingState → List TradingState → Result TradingState
run_analysis = Machine.run TradingState-discrete analysis_transitions

-- The states of the execution phase.
abbrev pub is_execution : TradingState → Bool
is_execution executing = true
is_execution executed = true
is_execution monitoring = true
is_execution closed = true
is_execution reflecting = true
is_execution _ = false

abbrev is_analysis : TradingState → Bool
is_analysis executing = false
is_analysis executed = false
is_analysis monitoring = false
is_analysis closed = false
is_analysis reflecting = false
is_analysis _ = true

analysis-edges :
    (s : TradingState) → is_analysis s ≡ true → all is_analysis (analysis_transitions s) ≡ true
unfolding analysis_transitions
analysis-edges idle h = refl
analysis-edges _ h = ground arith

-- The machine never leaves the analysis phase: no sequence of transitions from IDLE reaches
-- EXECUTING, EXECUTED, MONITORING, CLOSED or REFLECTING.
run_analysis-ne-execution :
    (ts : List TradingState) {u : TradingState}
    → run_analysis idle ts ≡ ok u
    → is_execution u ≡ false
unfolding run_analysis
run_analysis-ne-execution ts {u} r = outside u (
    Machine.run_inside TradingState-discrete analysis_transitions is_analysis analysis-edges idle ts
      refl r)
  where
    outside : (v : TradingState) → is_analysis v ≡ true → is_execution v ≡ false
    outside v k = ground arith

abbrev is_unreviewed : TradingState → Bool
is_unreviewed risk_review = false
is_unreviewed trade_planned = false
is_unreviewed executing = false
is_unreviewed executed = false
is_unreviewed monitoring = false
is_unreviewed closed = false
is_unreviewed reflecting = false
is_unreviewed _ = true

unreviewed-edges :
    (s : TradingState)
    → is_unreviewed s ≡ true
    → all
        (λ t. is_unreviewed t || contains TradingState-discrete t (risk_review ∷ []))
        (analysis_transitions s)
      ≡ true
unfolding contains TradingState-discrete analysis_transitions
unreviewed-edges idle h = refl
unreviewed-edges _ h = ground arith

-- A trade is planned only after a risk review in the same sequence of transitions.
pub trade_planned_needs_review :
    (ts : List TradingState)
    → run_analysis idle ts ≡ ok trade_planned
    → contains TradingState-discrete risk_review ts ≡ true
unfolding run_analysis
trade_planned_needs_review ts r =
    Machine.run_through_gate TradingState-discrete analysis_transitions is_unreviewed risk_review
      unreviewed-edges idle ts refl r refl
