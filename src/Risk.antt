-- ===== src/Risk.antt =====
-- The risk boundary (crypto_trading_mcp/risk).
pub mod Models
pub mod Config
pub mod Correlation
pub mod Guards
pub mod Engine
