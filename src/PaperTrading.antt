-- ===== src/PaperTrading.antt =====
-- crypto_trading_mcp/paper: the trading engine over the paper exchange, its sessions and its store.
pub mod Ledger
pub mod Plan
pub mod Planner
pub mod Engine
pub mod Execution
pub mod Cleared
pub mod Refused
