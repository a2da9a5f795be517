-- ===== src/Autonomous/Loop.antt =====
-- crypto_trading_mcp/autonomous/loop.py and idempotency.py: one cycle of `AutonomousPaperLoop` over the
-- paper engine. What the market gateway and the learning engine come to are arguments, and so are
-- the clock and the identifiers of the cycle and of the run. The file of the state is an attribute;
-- what a write of it comes to is an argument. The thread of `start` runs `run_once` again and again, and the event
-- bus is output only.
pub mod Steps
pub mod Total
pub mod Marks
pub mod Once
use Prim.Native.String.{◌++◌ as join}
use crypto_trading_mcp.Prelude.{
  ℕ, ◌+◌, ◌-◌, String, Bool, true, false, ◌||◌, not, Option, none, some, List, [], ◌∷◌, ◌==◌,
  one_of, length, get_or, if◌then◌else◌,
}
use crypto_trading_mcp.Text.{upper, lower, strip}
use crypto_trading_mcp.Errors.{PyError, Result, ok, err, runtime_error}
use crypto_trading_mcp.Action.{Action, pure, gets, modify, continue, ◌>>=◌}
use crypto_trading_mcp.Float.{Float, ◌⊗◌, ◌<<◌}
use crypto_trading_mcp.Risk.Correlation.{Powers, last_of}
use crypto_trading_mcp.Exchange.Ids.{Runtime, truthy}
use crypto_trading_mcp.Autonomous.States
use crypto_trading_mcp.Autonomous.States.{
  CycleState, cycle_started, market_data_ready, analysis_running, consensus_ready, trade_proposed,
  risk_validating, risk_approved, risk_rejected, order_submitted, order_filled, position_updated,
  cycle_completed, cycle_failed,
}
use crypto_trading_mcp.PaperTrading.Plan.{TradePlan}
use crypto_trading_mcp.PaperTrading.Engine.{PaperTradingEngine, EngineStatus, not_paper, start}
use crypto_trading_mcp.PaperTrading.Execution.{
  PlanRequest, Reply, is_executed, execute_approved_plan,
}

-- What the loop takes from Python: the digest of a text, and the built-in `sorted` on texts.
pub record Python : Type 0 where
  -- hashlib.sha256(raw.encode()).hexdigest()[:24]
  pub digest : String → String
  pub sorted : List String → List String

pub record LoopConfig : Type 0 where
  pub symbols : List String
  pub timeframe : String
  pub strategy_id : String
  pub live_trading_enabled : Bool
  pub duplicate_cycle_protection : Bool
  pub persist_state : Bool

pub data CycleReason : Type 0 where
  stale_or_unavailable_market_data duplicate_cycle_idempotency risk_rejected_cycle : CycleReason

pub record CycleResult : Type 0 where
  pub cycle_id : String
  pub symbol : String
  pub state : CycleState
  pub executed : Bool
  pub reason : Option CycleReason
  pub idempotency_key : Option String
  pub error : Option PyError

-- The file of the state.
pub record SavedState : Type 0 where
  pub cycles_completed : ℕ
  pub seen_idempotency : List String
  pub last_cycle : Option CycleResult

-- What a write of the file comes to: it may raise, and then leave whatever in the file.
pub data Write : Type 0 where
  stored : Write
  raised : PyError → Option SavedState → Write

pub record AutonomousPaperLoop (W : Type 0) : Type 0 where
  pub config : LoopConfig
  pub paper : PaperTradingEngine W
  pub cycles_completed : ℕ
  pub last_cycle : Option CycleResult
  pub seen_idempotency : List String
  pub saved : Option SavedState

-- A snapshot of the market: whether the gateway allows a trade on it, and its last price.
pub record Market (W : Type 0) : Type 0 where
  pub allows_new_trade : Bool
  pub last : Option W

pub record CycleInput (W : Type 0) : Type 0 where
  pub symbol : Option String
  pub price : Option W
  pub cycle_id : String
  pub run_id : String
  -- The clock: %Y%m%d%H%M, and in full.
  pub minute : String
  pub now : String
  -- The STOP file, when the paper engine starts and when it has the plan.
  pub stop_at_start : Bool
  pub stop_at_plan : Bool
  pub market : Result (Market W)
  pub learning : Result (Unit {0})
  -- The writes of the state: at the end of the block under `try`, and under `except`.
  pub saves : Write
  pub saves_again : Write

-- make_idempotency_key, for the signal version "1" and the side "LONG"
unfoldable pub make_idempotency_key : Python → String → String → String → String → String
make_idempotency_key python strategy_id symbol timeframe cycle_id =
    let bar = λ (a : String) (b : String). join a (join "|" b) in
    join "IDEM-" (
      python.digest (
        bar (lower (strip strategy_id)) (
          bar (upper (strip symbol)) (
            bar (strip timeframe)
              (bar (strip cycle_id) (bar (strip "1") (upper (strip "LONG"))))))))

-- (self.config.get("symbols") or ["BTC/USD"])[0]
abbrev first_symbol : List String → String
first_symbol [] = "BTC/USD"
first_symbol (s ∷ ss) = s

module _ {W : Type 0} where
  abbrev pub symbol_of : CycleInput W → LoopConfig → String
  symbol_of i c = upper (get_or (truthy i.symbol) (first_symbol c.symbols))

  -- The key of the cycle: the minute stands for the cycle where duplicates are guarded against.
  unfoldable pub key_of : Python → CycleInput W → LoopConfig → String
  key_of python i c =
      make_idempotency_key python c.strategy_id (symbol_of i c) c.timeframe
        (if c.duplicate_cycle_protection then i.minute else i.cycle_id)

  -- AutonomousPaperLoop._assert_paper_only
  abbrev pub is_paper_only : AutonomousPaperLoop W → Bool
  is_paper_only l = not (not_paper l.paper || l.config.live_trading_enabled)

  -- AutonomousPaperLoop._persist_state
  unfoldable pub persist_state :
      Python → Write → AutonomousPaperLoop W → Result (Unit {0}) × AutonomousPaperLoop W
  persist_state python w l =
      if l.config.persist_state
      then elim w [
        | stored ↦ (
          ok tt,
          record l {
            saved = some (record {
              cycles_completed = l.cycles_completed;
              seen_idempotency = last_of 500 (python.sorted l.seen_idempotency);
              last_cycle = l.last_cycle;
            });
          },
        )
        | raised e left ↦ (err e, record l { saved = left })
      ]
      else (ok tt, l)

  -- AutonomousPaperLoop._load_state
  unfoldable pub load_state : AutonomousPaperLoop W → AutonomousPaperLoop W
  load_state l = elim l.saved [
    | none ↦ l
    | some s ↦ record l {
      cycles_completed = s.cycles_completed;
      seen_idempotency = s.seen_idempotency;
      last_cycle = s.last_cycle;
    }
  ]

  -- The lines that end each branch of `run_once`: the cycle is counted before the state is written.
  unfoldable pub finished :
      Python
      → Write
      → CycleResult
      → AutonomousPaperLoop W
      → Result CycleResult × AutonomousPaperLoop W
  finished python w result l =
      continue
        (persist_state python w
          (record l { last_cycle = some result; cycles_completed = l.cycles_completed + 1 }))
        (λ _ l'. (ok result, l'))

-- The loop with the state machine of the cycle.
pub record Cycle (W : Type 0) : Type 0 where
  pub loop : AutonomousPaperLoop W
  pub state : CycleState

-- What a branch adds to the result.
pub record Ending : Type 0 where
  pub executed : Bool
  pub reason : Option CycleReason
  pub idempotency_key : Option String

module _ {W : Type 0} where
  -- sm.transition
  unfoldable pub move : CycleState → Action (Cycle W) (Unit {0})
  move t c = elim (States.transition c.state t) [
    | ok u ↦ (ok tt, record c { state = u })
    | err e ↦ (err e, c)
  ]

  abbrev pub settle : {A : Type 0} → Result A → Action (Cycle W) A
  settle r c = (r, c)

  -- A call of a method of `self.paper`.
  abbrev pub on_paper : {A : Type 0} → Action (PaperTradingEngine W) A → Action (Cycle W) A
  on_paper m c =
      let (r, paper) = m c.loop.paper in (r, record c { loop = record c.loop { paper = paper } })

  -- self.seen_idempotency.add
  abbrev pub mark_seen : String → Action (Cycle W) (Unit {0})
  mark_seen key =
      modify (λ c. record c {
        loop = record c.loop { seen_idempotency = key ∷ c.loop.seen_idempotency };
      })

module _ {W : Type 0} ⦃f : Float W⦄ where
  -- The plan of the cycle, at the last price.
  unfoldable pub plan_of : CycleInput W → LoopConfig → W → TradePlan W
  plan_of i c last =
      let quantity = if last << f.dec 1_000 0 then f.dec 1 0 else f.dec 1 2 in
      record {
        strategy_id = c.strategy_id;
        strategy_version = "1.0.0";
        model_ids = "PHASE9" ∷ [];
        symbol = symbol_of i c;
        side = "LONG";
        entry_price = last;
        quantity = quantity;
        notional = quantity ⊗ last;
        stop_loss = some (last ⊗ f.dec 97 2);
        take_profit = some (last ⊗ f.dec 106 2);
        risk_amount = f.abs (last ⊗ f.dec 3 2) ⊗ quantity;
        expected_fee = f.dec 0 0;
        expected_slippage = f.dec 0 0;
        risk_reward_ratio = some (f.dec 2 0);
        confidence = f.dec 66 2;
        status = "PROPOSED";
        reason = none;
        move_be_at_1r = false;
        partial_tp_pct = none;
      }

  -- `price`, or the last price of the ticker, or 100.0.
  abbrev pub last_price : CycleInput W → Market W → W
  last_price i m = get_or i.price (get_or m.last (f.dec 100 0))

  abbrev pub request_of : CycleInput W → LoopConfig → W → PlanRequest W
  request_of i c last = record {
    plan = plan_of i c last;
    market_price = last;
    asset_class = "CRYPTO";
    candidate_returns = [];
    market_data_stale = false;
    run_id = i.run_id;
    stop_file = i.stop_at_plan;
    now = i.now;
  }

  -- The end of the cycle, after the plan was executed or not.
  unfoldable pub concluded : CycleInput W → String → Bool → Action (Cycle W) Ending
  concluded i key true = do
    _ ← move risk_approved
    _ ← move order_submitted
    _ ← move order_filled
    _ ← move position_updated
    _ ← mark_seen key
    _ ← settle i.learning
    _ ← move cycle_completed
    pure (record { executed = true; reason = none; idempotency_key = some key })
  concluded i key false = do
    _ ← move risk_rejected
    _ ← move cycle_completed
    pure
        (record { executed = false; reason = some risk_rejected_cycle; idempotency_key = some key })

  -- The cycle from the proposal on.
  unfoldable pub proposed :
      Runtime W → Powers W → CycleInput W → String → W → Action (Cycle W) Ending
  proposed py pow i key last = do
    _ ← move risk_validating
    _ ← on_paper (start i.stop_at_start)
    config ← gets (λ c. c.loop.config)
    reply ← on_paper (execute_approved_plan py pow (request_of i config last))
    concluded i key (is_executed reply)

  -- A cycle whose key has been seen, or a new one.
  unfoldable pub guarded :
      Runtime W → Powers W → CycleInput W → String → W → Bool → Action (Cycle W) Ending
  guarded py pow i key last true = do
    _ ← move cycle_completed
    pure (record {
      executed = false;
      reason = some duplicate_cycle_idempotency;
      idempotency_key = some key;
    })
  guarded py pow i key last false = proposed py pow i key last

  abbrev pub keyed :
      Python
      → Runtime W
      → Powers W
      → CycleInput W
      → Market W
      → AutonomousPaperLoop W
      → Action (Cycle W) Ending
  keyed python py pow i m l =
      let key = key_of python i l.config in
      guarded py pow i key (last_price i m) (one_of key l.seen_idempotency)

  -- A market that cannot be traded on, or one that can.
  unfoldable pub analysed :
      Python → Runtime W → Powers W → CycleInput W → Market W → Bool → Action (Cycle W) Ending
  analysed python py pow i m false = do
    _ ← move cycle_completed
    pure (record {
      executed = false;
      reason = some stale_or_unavailable_market_data;
      idempotency_key = none;
    })
  analysed python py pow i m true = do
    _ ← move analysis_running
    _ ← move consensus_ready
    _ ← move trade_proposed
    l ← gets (λ c. c.loop)
    keyed python py pow i m l

  -- The block under `try`.
  unfoldable pub cycle : Python → Runtime W → Powers W → CycleInput W → Action (Cycle W) Ending
  cycle python py pow i = do
    _ ← move market_data_ready
    m ← settle i.market
    analysed python py pow i m m.allows_new_trade

  -- The block under `except`; a reason and a key that the result has already stay in it.
  unfoldable pub excepted :
      Python
      → CycleInput W
      → String
      → Option CycleReason
      → Option String
      → PyError
      → AutonomousPaperLoop W
      → Result CycleResult × AutonomousPaperLoop W
  excepted python i symbol reason key e l =
      finished python i.saves_again
        (record {
          cycle_id = i.cycle_id;
          symbol = symbol;
          state = cycle_failed;
          executed = false;
          reason = reason;
          idempotency_key = key;
          error = some e;
        })
        l

  -- After the write that ends the block under `try`.
  unfoldable pub saved_or_excepted :
      Python
      → CycleInput W
      → String
      → Ending
      → Result CycleResult × AutonomousPaperLoop W
      → Result CycleResult × AutonomousPaperLoop W
  saved_or_excepted python i symbol ending (ok result, l) = (ok result, l)
  saved_or_excepted python i symbol ending (err e, l) =
      excepted python i symbol ending.reason ending.idempotency_key e l

  -- After the steps of the block: its result, or the one of `except`.
  unfoldable pub closed :
      Python
      → CycleInput W
      → String
      → Result Ending × Cycle W
      → Result CycleResult × AutonomousPaperLoop W
  closed python i symbol (ok ending, c) = saved_or_excepted python i symbol ending (
      finished python i.saves
        (record {
          cycle_id = i.cycle_id;
          symbol = symbol;
          state = c.state;
          executed = ending.executed;
          reason = ending.reason;
          idempotency_key = ending.idempotency_key;
          error = none;
        })
        c.loop)
  closed python i symbol (err e, c) = excepted python i symbol none none e c.loop

  -- AutonomousPaperLoop.run_once
  unfoldable pub run_once :
      Python
      → Runtime W
      → Powers W
      → CycleInput W
      → AutonomousPaperLoop W
      → Result CycleResult × AutonomousPaperLoop W
  run_once python py pow i l =
      let after =
        closed python i (symbol_of i l.config)
          (cycle python py pow i (record { loop = l; state = cycle_started })) in
      if is_paper_only l then after else (err runtime_error, l)
