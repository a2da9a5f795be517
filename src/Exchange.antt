-- ===== src/Exchange.antt =====
-- The simulated exchange (src/crypto_trading_mcp/exchange).
pub mod Models
pub mod Trailing
pub mod Costs
pub mod Ids
pub mod Paper
pub mod Prediction
