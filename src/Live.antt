-- ===== src/Live.antt =====
-- The controls of live trading (crypto_trading_mcp/live).
pub mod Stages
pub mod Gate
pub mod KillSwitch
