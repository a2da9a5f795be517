-- ===== src/Autonomous/Loop/Once.antt =====
-- A cycle that has traded is not repeated under its key.
use crypto_trading_mcp.Prelude.{
  Option, none, ◌≡◌, refl, ◌∙◌, String, Bool, true, false, List, [], ◌∷◌, one_of, arith, Bool-cases,
  inl, inr,
}
use crypto_trading_mcp.Errors.{PyError, Result, ok, err}
use crypto_trading_mcp.Action.{continue}
use crypto_trading_mcp.Machine
use crypto_trading_mcp.Float.{Float}
use crypto_trading_mcp.Risk.Correlation.{Powers}
use crypto_trading_mcp.Exchange.Ids.{Runtime}
use crypto_trading_mcp.Autonomous.States
use crypto_trading_mcp.Autonomous.States.{
  CycleState, cycle_started, market_data_ready, cycle_completed,
}
use crypto_trading_mcp.Autonomous.Loop.{
  Python, Write, stored, raised, CycleReason, excepted, saved_or_excepted, Market, CycleInput,
  CycleResult, AutonomousPaperLoop, Cycle, Ending, is_paper_only, persist_state, finished,
  symbol_of, key_of, move, guarded, analysed, cycle, closed, run_once,
}
use crypto_trading_mcp.Autonomous.Loop.Steps.{Moves-cycle}
use crypto_trading_mcp.Autonomous.Loop.Marks.{
  Remembers, Remembers-trans, CycleRemembers-IsKept, MarksOwn-cycle,
}

abbrev pub executes : Result CycleResult → Bool
executes (ok result) = result.executed
executes (err e) = false

abbrev executes_ending : Result Ending → Bool
executes_ending (ok a) = a.executed
executes_ending (err e) = false

module _ {W : Type 0} ⦃f : Float W⦄ (python : Python) (py : Runtime W) (pow : Powers W) where
  -- A write of the state changes neither the configuration, nor the keys, nor the paper engine.
  finished-Remembers :
      (w : Write) (result : CycleResult) (l : AutonomousPaperLoop W)
      → let (r, l') = finished python w result l in Remembers l l' × (l'.paper ≡ l.paper)
  unfolding finished persist_state
  finished-Remembers stored result l =
      (record { config = ground arith; keys = λ key m. ground arith }, ground arith)
  finished-Remembers (raised e left) result l =
      (record { config = ground arith; keys = λ key m. ground arith }, ground arith)

  finished-result :
      (w : Write) (result : CycleResult) (l : AutonomousPaperLoop W)
      → executes (finished python w result l).0 ≡ true
      → result.executed ≡ true
  unfolding finished persist_state
  finished-result stored result l h = ground arith
  finished-result (raised e left) result l h = ground arith

  -- The block under `except` reports that nothing was executed.
  excepted-idle :
      (i : CycleInput W) (symbol : String) (reason : Option CycleReason) (key : Option String)
      (e : PyError) (l : AutonomousPaperLoop W)
      → executes (excepted python i symbol reason key e l).0 ≡ false
  unfolding excepted
  excepted-idle i symbol reason key e l =
      elim (Bool-cases (executes (excepted python i symbol reason key e l).0)) [
        | inl h ↦ let never = finished-result i.saves_again _ l h in cc
        | inr h ↦ h
      ]

  excepted-Remembers :
      (i : CycleInput W) (symbol : String) (reason : Option CycleReason) (key : Option String)
      (e : PyError) (l : AutonomousPaperLoop W)
      → let (r, l') = excepted python i symbol reason key e l in
        Remembers l l' × (l'.paper ≡ l.paper)
  unfolding excepted
  excepted-Remembers i symbol reason key e l = finished-Remembers i.saves_again _ l

  -- What the end of a cycle keeps and reports, from the write that ends its block on.
  after_save :
      (i : CycleInput W) (symbol : String) (a : Ending) (l : AutonomousPaperLoop W)
      (r : Result CycleResult × AutonomousPaperLoop W)
      → Remembers l r.1 × (r.1.paper ≡ l.paper)
      → (executes r.0 ≡ true → a.executed ≡ true)
      → let (r', l') = saved_or_excepted python i symbol a r in
        (Remembers l l' × (l'.paper ≡ l.paper)) × (executes r' ≡ true → a.executed ≡ true)
  unfolding saved_or_excepted
  after_save i symbol a l (ok result, l1) kept told = (kept, told)
  after_save i symbol a l (err e, l1) (kept, paper) told =
      let (kept', paper') = excepted-Remembers i symbol a.reason a.idempotency_key e l1 in
      let idle = excepted-idle i symbol a.reason a.idempotency_key e l1 in
      ((Remembers-trans l l1 _ kept kept', paper' ∙ paper), λ h. cc)

  closed-ok :
      (i : CycleInput W) (symbol : String) (a : Ending) (c : Cycle W)
      → let (r, l) = closed python i symbol (ok a, c) in
        (Remembers c.loop l × (l.paper ≡ c.loop.paper)) × (executes r ≡ true → a.executed ≡ true)
  unfolding closed
  closed-ok i symbol a c =
      after_save i symbol a c.loop _ (finished-Remembers i.saves _ c.loop)
        (λ h. finished-result i.saves _ c.loop h)

  closed-Remembers :
      (i : CycleInput W) (symbol : String) (r : Result Ending) (c : Cycle W)
      → Remembers c.loop (closed python i symbol (r, c)).1
  unfolding closed
  closed-Remembers i symbol (ok a) c = (closed-ok i symbol a c).0.0
  closed-Remembers i symbol (err e) c = (excepted-Remembers i symbol none none e c.loop).0

  closed-executed :
      (i : CycleInput W) (symbol : String) (r : Result Ending) (c : Cycle W)
      → executes (closed python i symbol (r, c)).0 ≡ true
      → (a : Ending) × (r ≡ ok a) × (a.executed ≡ true)
  unfolding closed
  closed-executed i symbol (ok a) c h = (a, refl, (closed-ok i symbol a c).1 h)
  closed-executed i symbol (err e) c h = let idle = excepted-idle i symbol none none e c.loop in cc

  closed-idle :
      (i : CycleInput W) (symbol : String) (r : Result Ending) (c : Cycle W)
      → executes_ending r ≡ false
      → executes (closed python i symbol (r, c)).0 ≡ false
  unfolding closed
  closed-idle i symbol (err e) c k = excepted-idle i symbol none none e c.loop
  closed-idle i symbol (ok a) c k =
      elim (Bool-cases (executes (closed python i symbol (ok a, c)).0)) [
        | inl h ↦ let done : a.executed ≡ true = (closed-ok i symbol a c).1 h in cc
        | inr h ↦ h
      ]

  closed-paper :
      (i : CycleInput W) (symbol : String) (r : Result Ending) (c : Cycle W)
      → (closed python i symbol (r, c)).1.paper ≡ c.loop.paper
  unfolding closed
  closed-paper i symbol (ok a) c = (closed-ok i symbol a c).0.1
  closed-paper i symbol (err e) c = (excepted-Remembers i symbol none none e c.loop).1

  abbrev started : AutonomousPaperLoop W → Cycle W
  started l = record { loop = l; state = cycle_started }

  run_once-Remembers :
      (i : CycleInput W) (l : AutonomousPaperLoop W) → Remembers l (run_once python py pow i l).1
  unfolding run_once
  run_once-Remembers i l =
      let (r, c) = cycle python py pow i (started l) in
      elim (Bool-cases (is_paper_only l)) [
        | inl e ↦ rw e (
            Remembers-trans l c.loop _
              ((Moves-cycle CycleRemembers-IsKept python py pow i).at (started l))
              (closed-Remembers i (symbol_of i l.config) r c))
        | inr e ↦ rw e (record { config = refl; keys = λ key m. m })
      ]

  -- A cycle that trades leaves its key behind.
  run_once-key :
      (i : CycleInput W) (l : AutonomousPaperLoop W)
      → executes (run_once python py pow i l).0 ≡ true
      → one_of (key_of python i l.config) (run_once python py pow i l).1.seen_idempotency ≡ true
  unfolding run_once
  run_once-key i l h =
      let (r, c) = cycle python py pow i (started l) in
      elim (Bool-cases (is_paper_only l)) [
        | inl e ↦
            let (a, same, done) = closed-executed i (symbol_of i l.config) r c (rw e at h) in
            rw e (
              (closed-Remembers i (symbol_of i l.config) r c).keys (key_of python i l.config)
                ((MarksOwn-cycle python py pow i).at (started l) a same done))
        | inr e ↦ ground arith
      ]

  analysed-known :
      (i : CycleInput W) (m : Market W) (b : Bool) (l : AutonomousPaperLoop W)
      → one_of (key_of python i l.config) l.seen_idempotency ≡ true
      → let (r, c) =
          analysed python py pow i m b (record { loop = l; state = market_data_ready }) in
        (c.loop.paper ≡ l.paper) × (executes_ending r ≡ false)
  unfolding analysed guarded move States.transition Machine.transition Machine.contains
      States.cycle_transitions States.CycleState-discrete
  analysed-known i m true l h = rw h (refl, refl)
  analysed-known i m false l h = (refl, refl)

  -- Where the key is known, the cycle ends before the paper engine is called.
  cycle-known :
      (i : CycleInput W) (l : AutonomousPaperLoop W)
      → one_of (key_of python i l.config) l.seen_idempotency ≡ true
      → let (r, c) = cycle python py pow i (started l) in
        (c.loop.paper ≡ l.paper) × (executes_ending r ≡ false)
  unfolding cycle move States.transition Machine.transition Machine.contains
      States.cycle_transitions States.CycleState-discrete
  cycle-known i l h = by_market i.market
    where
      by_market :
          (m : Result (Market W))
          → let (r, c) =
              continue
                (m, record { loop = l; state = market_data_ready })
                (λ m'. analysed python py pow i m' m'.allows_new_trade) in
            (c.loop.paper ≡ l.paper) × (executes_ending r ≡ false)
      by_market (err e) = (refl, refl)
      by_market (ok m) = analysed-known i m m.allows_new_trade l h

  -- What a cycle comes to whose key has been seen: it does not trade, and the paper engine stays.
  run_once-known :
      (i : CycleInput W) (l : AutonomousPaperLoop W)
      → one_of (key_of python i l.config) l.seen_idempotency ≡ true
      → let (r, l') = run_once python py pow i l in (executes r ≡ false) × (l'.paper ≡ l.paper)
  unfolding run_once
  run_once-known i l h =
      let (r, c) = cycle python py pow i (started l) in
      let (same, idle) = cycle-known i l h in
      elim (Bool-cases (is_paper_only l)) [
        | inl e ↦ rw e (
          closed-idle i (symbol_of i l.config) r c idle,
          closed-paper i (symbol_of i l.config) r c ∙ same,
        )
        | inr e ↦ rw e (refl, refl)
      ]

  unfoldable pub run_all : AutonomousPaperLoop W → List (CycleInput W) → AutonomousPaperLoop W
  run_all l [] = l
  run_all l (i ∷ is) = run_all (run_once python py pow i l).1 is

  run_all-Remembers :
      (l : AutonomousPaperLoop W) (is : List (CycleInput W)) → Remembers l (run_all l is)
  unfolding run_all
  run_all-Remembers l [] = record { config = refl; keys = λ key m. m }
  run_all-Remembers l (i ∷ is) =
      Remembers-trans l _ _ (run_once-Remembers i l)
        (run_all-Remembers (run_once python py pow i l).1 is)

  -- After a cycle that reports a trade, and any further cycles, a cycle whose key is the same (the configured
  -- strategy and timeframe, the symbol, and the minute or the identifier of the cycle) neither reports
  -- a trade nor changes the paper engine.
  pub executed_once :
      (i j : CycleInput W) (l : AutonomousPaperLoop W) (between : List (CycleInput W))
      → executes (run_once python py pow i l).0 ≡ true
      → key_of python j l.config ≡ key_of python i l.config
      → let later = run_all (run_once python py pow i l).1 between in
        let (again, after) = run_once python py pow j later in
        (executes again ≡ false) × (after.paper ≡ later.paper)
  executed_once i j l between h same =
      let first = (run_once python py pow i l).1 in
      let kept =
        Remembers-trans l first _ (run_once-Remembers i l) (run_all-Remembers first between) in
      let rest = run_all-Remembers first between in
      run_once-known j (run_all first between)
        (rw (kept.config, same) (rest.keys (key_of python i l.config) (run_once-key i l h)))
