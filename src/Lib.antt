-- ===== src/Lib.antt =====
-- A model of the safety core of the trading server, and the theorems that make it correct.
--
-- The parts, and how they interact. A trade is proposed, the risk engine clears or refuses it, an
-- order is created and filled at a price with fees and slippage, and the portfolio books it. Kill
-- switches, trading stages and a gate stand before live orders. State machines fix the order of
-- these steps. In paper mode the engine of PaperTrading leads a plan through compliance, correlation
-- and risk to the paper exchange, and the autonomous loop proposes a plan in each cycle. Paths are
-- relative to src/crypto_trading_mcp.
--
--   Risk: risk/models.py (Risk.Models), risk/config.py (Risk.Config: KillSwitch,
--     merge_effective_limits, pair_allowed), risk/engine.py (Risk.Guards and Risk.Engine:
--     RiskEngine.evaluate, its rules in groups in the order of the source), risk/correlation.py
--     (Risk.Correlation).
--   Compliance: compliance/policy.py, the gate before the risk engine and the tax simulation.
--   Okf: okf/turnover.py and okf/correlation_gate.py, the two gates that the risk engine calls,
--     okf/circuit_breakers.py (Okf.Breakers) and okf/sizing.py (Okf.Sizing).
--   Live: live/stages.py (Live.Stages), live/policy.py and live/gate.py (Live.Gate),
--     live/kill_switch.py and live/durable_kill_switch.py (Live.KillSwitch).
--   Portfolio: portfolio/manager.py (Portfolio.Manager), which keeps the cash and the positions.
--   Exchange: exchange/models.py (Exchange.Models), exchange/trailing.py (Exchange.Trailing),
--     exchange/fees.py and exchange/slippage.py (Exchange.Costs), the identifiers of orders and
--     fills (Exchange.Ids), and exchange/paper.py (Exchange.Paper): the attributes and the methods
--     on them (State), _fill_market (Fills), create_order, cancel_order and expire_order (Orders),
--     _manage_open_position (Exits), on_price_update and end_of_day (Session). Calls has the calls
--     of a client and their runs, Frames what carries over the loops of a run. exchange/prediction.py
--     and exchange/settlement.py are Exchange.Prediction.
--   PaperTrading: execution/planner.py (Plan: TradePlan; Planner: TradePlanner.plan),
--     paper/session.py and paper/persistence.py (Ledger), and paper/engine.py: the engine and its methods (Engine) and execute_approved_plan
--     (Execution), one function from each check on.
--   Autonomous.Loop: autonomous/loop.py and autonomous/idempotency.py, run_once over the engine and
--     the machine of the cycle, one function from each branch on.
--   Autonomous, Orchestration, Sandbox: the machines of autonomous/states.py,
--     orchestration/state_machine.py and sandbox/lifecycle.py, over the generic Machine.
--   Sandbox.Execution: sandbox/execution.py, and the adapter of sandbox/delta_sandbox.py that it
--     calls: an order goes through the ledger, the machine of its lifecycle, the venue and the
--     reconciliation.
--   Orders: orders/intent.py and orders/ledger.py (Orders.Ledger), the ledger of intents over a
--     durable store; Redaction describes what is kept of the metadata of an intent.
--   Reconciliation: reconciliation/service.py, which compares the local snapshot with the venue's.
--   Persistence: persistence/base.py, the interface of the durable stores.
--   Prelude, Text, Dict, Errors, Action, Guarded: Boolean tests and lists, Python's texts and dicts,
--     exceptions as values, methods that may raise, and chains of conditions that append reason
--     codes.
--
-- How the source is read. A method that changes its object takes the object last and returns it
-- changed; one that raises returns the error and the object as it is at the `raise`. A chain of
-- `if c: reasons.append(r)` is a list of conditions with their codes. The clock is an argument.
-- Counts are natural numbers. Texts are upper-cased and stripped as ASCII.
--
-- Floating point is a parameter, the record Float: literals, arithmetic and comparisons of any
-- number type. Theorems that need more take IsOrdered (the comparisons form an order away from
-- NaN) and IsMonotone (signs of rounded results), which hold of IEEE 754 numbers; where NaN could
-- break a statement, the premise `x <= x` says that `x` is not NaN. Float.Ticks is a type of
-- fixed-point numbers that meets both, at which the theorems are run in Tests.
--
-- SHA-256, the formatting of numbers and the texts of exceptions are the parameter Runtime, of which
-- nothing is assumed; the JSON values of a snapshot are the parameter Json, with the laws that None
-- equals None and that a set has the elements it is made of. Durable stores are a parameter as well:
-- a write always succeeds and is read back, a read may fail. What the callbacks of the circuit
-- breakers come to and the built-in round are arguments. So are the powers of Python (Powers), the
-- digest and the sorting of the loop (Python), what the market gateway and the learning engine come
-- to in a cycle, what its writes of the state come to, and whether the STOP file is there. The client of the sandbox venue (Venue) is a
-- parameter of which nothing is assumed. Loops run over lists and there is no fuel.
--
-- Not modelled: the threads of the autonomous loop, the SQLite stores, the synthetic order book, the
-- adapters of venues, language models, learning, backtests, market data and indicators, output, and
-- the reading of configuration files. The engines take their configuration as a value.
pub mod Prelude
pub mod Text
pub mod Dict
pub mod Errors
pub mod Persistence
pub mod Machine
pub mod Guarded
pub mod Action
pub mod Float
pub mod Autonomous
pub mod Compliance
pub mod Exchange
pub mod Live
pub mod Okf
pub mod Orchestration
pub mod Orders
pub mod PaperTrading
pub mod Portfolio
pub mod Reconciliation
pub mod Risk
pub mod Sandbox
pub mod Tests
