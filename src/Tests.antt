-- ===== src/Tests.antt =====
-- The theorems at concrete inputs.
mod Machines
mod Exchange
mod Portfolio
mod Risk
mod Live
mod Orders
mod Compliance
mod Paper
mod Okf
mod Reconciliation
mod PaperTrading
mod Autonomous
mod Sandbox
mod Planner
mod Prediction
