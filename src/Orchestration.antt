-- ===== src/Orchestration.antt =====
-- src/crypto_trading_mcp/orchestration: the analysis pipeline's state machine.
pub mod StateMachine
