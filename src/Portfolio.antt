-- ===== src/Portfolio.antt =====
-- The accounting portfolio (crypto_trading_mcp/portfolio).
pub mod Manager
