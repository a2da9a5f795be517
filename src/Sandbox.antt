-- ===== src/Sandbox.antt =====
-- src/crypto_trading_mcp/sandbox: the order lifecycle of the sandbox venue.
pub mod Lifecycle
pub mod Execution
