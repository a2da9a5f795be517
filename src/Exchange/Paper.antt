-- ===== src/Exchange/Paper.antt =====
-- crypto_trading_mcp/exchange/paper.py: `PaperExchange`, the simulated venue.
pub mod State
pub mod Fills
pub mod Orders
pub mod Exits
pub mod Session
pub mod Calls
pub mod Frames
pub mod Admission
pub mod Bounds
pub mod Duplicates
pub mod Halts
pub mod Refusals
