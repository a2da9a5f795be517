-- ===== src/Reconciliation.antt =====
-- crypto_trading_mcp/reconciliation
pub mod Service
