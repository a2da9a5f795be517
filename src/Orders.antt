-- ===== src/Orders.antt =====
-- crypto_trading_mcp/orders: the intents to trade and their ledger.
pub mod Ledger
