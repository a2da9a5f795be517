-- ===== src/Okf.antt =====
-- crypto_trading_mcp/okf: the gates that the risk engine calls, the circuit breakers and the sizing.
pub mod Turnover
pub mod Correlation
pub mod Breakers
pub mod Sizing
