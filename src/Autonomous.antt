-- ===== src/Autonomous.antt =====
-- The autonomous paper-trading loop (crypto_trading_mcp/autonomous).
pub mod States
pub mod Safety
pub mod Loop
