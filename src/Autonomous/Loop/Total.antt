-- ===== src/Autonomous/Loop/Total.antt =====
-- What a cycle comes to, writes of the state that raise included.
use crypto_trading_mcp.Prelude.{
  ◌≡◌, refl, sym, ◌∙◌, ◌⊎◌, Option, Bool-cases, inl, inr, ℕ, ◌+◌, String, Bool, true, false, none,
  some, arith, ap,
}
use crypto_trading_mcp.Errors.{PyError, Result, ok, err}
use crypto_trading_mcp.Action.{Action, pure, continue, ◌>>=◌}
use crypto_trading_mcp.Machine
use crypto_trading_mcp.Float.{Float}
use crypto_trading_mcp.Risk.Correlation.{Powers}
use crypto_trading_mcp.Exchange.Ids.{Runtime}
use crypto_trading_mcp.Autonomous.States
use crypto_trading_mcp.Autonomous.States.{CycleState, cycle_started, cycle_completed, cycle_failed}
use crypto_trading_mcp.Autonomous.Loop.{
  Python, LoopConfig, SavedState, Write, stored, raised, excepted, saved_or_excepted, Market,
  CycleInput, CycleResult, AutonomousPaperLoop, Cycle, Ending, is_paper_only, persist_state,
  finished, symbol_of, move, concluded, proposed, guarded, analysed, cycle, closed, run_once,
}
use crypto_trading_mcp.Autonomous.Loop.Steps.{IsKept, Moves-cycle}

-- A call that returns leaves the state machine at CYCLE_COMPLETED.
record Ends {W A : Type 0} (m : Action (Cycle W) A) : Type 0 where
  at : (c : Cycle W) (a : A) → (m c).0 ≡ ok a → (m c).1.state ≡ cycle_completed

-- The write of the state is made, and raises.
abbrev pub IsFailed : Write → LoopConfig → PyError → Type 0
IsFailed w config e =
    (left : Option SavedState) × (w ≡ raised e left) × (config.persist_state ≡ true)

-- A cycle that has come to its end, by the number of cycles before and after it.
abbrev pub IsCompleted : CycleResult → ℕ → ℕ → Type 0
IsCompleted result before after =
    (result.state ≡ cycle_completed) × (result.error ≡ none) × (after ≡ before + 1)

module _ {W : Type 0} where
  Ends-bind :
      {A B : Type 0} (m : Action (Cycle W) A) (f : A → Action (Cycle W) B)
      → ((a : A) → Ends (f a))
      → Ends (m >>= f)
  Ends-bind {A} {B} m f h = record { at = λ c. after (m c) }
    where
      after :
          (r : Result A × Cycle W) (b : B)
          → (continue r f).0 ≡ ok b
          → (continue r f).1.state ≡ cycle_completed
      after (ok a, c) b k = (h a).at c b k
      after (err e, c) b k = cc

  Ends-last : {A : Type 0} (a : A) → Ends (move {W = W} cycle_completed >>= λ _. pure a)
  unfolding move States.transition Machine.transition
  Ends-last a = record { at = λ c b h. ground arith }

  -- A cycle neither counts itself nor changes the configuration.
  IsUncounted : Cycle W → Cycle W → Type 0
  IsUncounted c d =
      (d.loop.cycles_completed ≡ c.loop.cycles_completed) × (d.loop.config ≡ c.loop.config)

  IsUncounted-IsKept : IsKept IsUncounted
  unfolding IsUncounted
  IsUncounted-IsKept = record {
    frame = record { stay = λ c. (refl, refl); chain = λ c d e (n, g) (m, h). (m ∙ n, h ∙ g) };
    state = λ u c. (refl, refl);
    paper = λ p c. (refl, refl);
    seen = λ key. record { at = λ c. (refl, refl) };
  }

  -- A failure that is reported: counted once, or twice where it is the first write that raised.
  abbrev pub IsFailure : CycleInput W → LoopConfig → CycleResult → ℕ → ℕ → Type 0
  IsFailure i config result before after =
      (e : PyError) × (result.error ≡ some e)
      × (result.state ≡ cycle_failed)
      × (result.executed ≡ false)
      × ((after ≡ before + 1) ⊎ ((after ≡ before + 2) × IsFailed i.saves config e))

  -- What a cycle comes to: a result that is the last one, or the exception of the second write.
  abbrev pub IsOutcome :
      CycleInput W → AutonomousPaperLoop W → Result CycleResult × AutonomousPaperLoop W → Type 0
  IsOutcome i l (r, l') =
      ((result : CycleResult) × (r ≡ ok result)
        × (l'.last_cycle ≡ some result)
        × (IsCompleted result l.cycles_completed l'.cycles_completed
            ⊎ IsFailure i l.config result l.cycles_completed l'.cycles_completed))
      ⊎ ((e : PyError) × (r ≡ err e) × IsFailed i.saves_again l.config e)

module _ {W : Type 0} ⦃f : Float W⦄ (python : Python) (py : Runtime W) (pow : Powers W) where
  Ends-concluded : (i : CycleInput W) (key : String) (b : Bool) → Ends (concluded i key b)
  unfolding concluded
  Ends-concluded i key true = search (Ends-last, Ends-bind) depth 20
  Ends-concluded i key false = search (Ends-last, Ends-bind) depth 20

  Ends-guarded :
      (i : CycleInput W) (key : String) (last : W) (b : Bool) → Ends (guarded py pow i key last b)
  unfolding guarded proposed
  Ends-guarded i key last true = Ends-last _
  Ends-guarded i key last false = search (Ends-concluded i key, Ends-bind) depth 20

  Ends-analysed : (i : CycleInput W) (m : Market W) (b : Bool) → Ends (analysed python py pow i m b)
  unfolding analysed
  Ends-analysed i m true = search (Ends-guarded i, Ends-bind) depth 20
  Ends-analysed i m false = Ends-last _

  Ends-cycle : (i : CycleInput W) → Ends (cycle python py pow i)
  unfolding cycle
  Ends-cycle i = search (Ends-analysed i, Ends-bind) depth 20

  -- A result that is finished is recorded and counted, and then its write may raise.
  finished-cases :
      (w : Write) (result : CycleResult) (l : AutonomousPaperLoop W)
      → let (r, l') = finished python w result l in
        (l'.cycles_completed ≡ l.cycles_completed + 1)
        × (l'.config ≡ l.config)
        × (((r ≡ ok result) × (l'.last_cycle ≡ some result))
            ⊎ ((e : PyError) × (r ≡ err e) × IsFailed w l.config e))
  unfolding finished persist_state
  finished-cases stored result l = elim (Bool-cases l.config.persist_state) [
    | inl h ↦ rw h (refl, refl, inl (refl, refl))
    | inr h ↦ rw h (refl, refl, inl (refl, refl))
  ]
  finished-cases (raised e left) result l = elim (Bool-cases l.config.persist_state) [
    | inl h ↦ rw h (refl, refl, inr (e, refl, (left, refl, refl)))
    | inr h ↦ rw h (refl, refl, inl (refl, refl))
  ]

  -- A failure that is finished, where the cycle may have been counted already.
  failure-IsOutcome :
      (i : CycleInput W) (result : CycleResult) (e : PyError) (l c : AutonomousPaperLoop W)
      → (result.error ≡ some e) × (result.state ≡ cycle_failed) × (result.executed ≡ false)
      → c.config ≡ l.config
      → (c.cycles_completed ≡ l.cycles_completed)
        ⊎ ((c.cycles_completed ≡ l.cycles_completed + 1) × IsFailed i.saves l.config e)
      → IsOutcome i l (finished python i.saves_again result c)
  failure-IsOutcome i result e l c (error, state, idle) same before =
      let (counted, config, cases) = finished-cases i.saves_again result c in
      elim cases [
        | inl (told, last) ↦ inl (
          result,
          told,
          last,
          inr (
            e,
            error,
            state,
            idle,
            elim before [
              | inl n ↦ inl (counted ∙ ap (λ (n : ℕ). n + 1) n)
              | inr (n, failed) ↦ inr (counted ∙ ap (λ (n : ℕ). n + 1) n ∙ omega arith, failed)
            ],
          ),
        )
        | inr (again, told, (left, write, persists)) ↦ inr (
          again,
          told,
          (left, write, ap (λ (x : LoopConfig). x.persist_state) (sym same) ∙ persists),
        )
      ]

  saved-IsOutcome :
      (i : CycleInput W) (symbol : String) (a : Ending) (result : CycleResult)
      (l : AutonomousPaperLoop W) (r : Result CycleResult × AutonomousPaperLoop W)
      → (result.state ≡ cycle_completed) × (result.error ≡ none)
      → (r.1.cycles_completed ≡ l.cycles_completed + 1)
        × (r.1.config ≡ l.config)
        × (((r.0 ≡ ok result) × (r.1.last_cycle ≡ some result))
            ⊎ ((e : PyError) × (r.0 ≡ err e) × IsFailed i.saves l.config e))
      → IsOutcome i l (saved_or_excepted python i symbol a r)
  unfolding saved_or_excepted excepted
  saved-IsOutcome i symbol a result l (ok told, c) (state, error) (counted, config, cases) =
      elim cases [
        | inl (same, last) ↦ inl (result, same, last, inl (state, error, counted))
        | inr (e, other, failed) ↦ cc
      ]
  saved-IsOutcome i symbol a result l (err e, c) done (counted, config, cases) = elim cases [
    | inl (same, last) ↦ cc
    | inr (e', same, (left, write, persists)) ↦
        let raises : e' ≡ e = cc in
        failure-IsOutcome i _ e l c (refl, refl, refl) config
          (inr (counted, (left, write ∙ ap (λ (x : PyError). raised x left) raises, persists)))
  ]

  -- The end of the block under `try`, where the loop has come to `c`.
  completed-IsOutcome :
      (i : CycleInput W) (symbol : String) (a : Ending) (result : CycleResult)
      (l c : AutonomousPaperLoop W)
      → (result.state ≡ cycle_completed) × (result.error ≡ none)
      → c.config ≡ l.config
      → c.cycles_completed ≡ l.cycles_completed
      → IsOutcome i l (saved_or_excepted python i symbol a (finished python i.saves result c))
  completed-IsOutcome i symbol a result l c done same n =
      let (counted, config, cases) = finished-cases i.saves result c in
      saved-IsOutcome i symbol a result l _ done (
        counted ∙ ap (λ (n : ℕ). n + 1) n,
        config ∙ same,
        elim cases [
          | inl told ↦ inl told
          | inr (e, other, (left, write, persists)) ↦ inr (
            e,
            other,
            (left, write, ap (λ (x : LoopConfig). x.persist_state) (sym same) ∙ persists),
          )
        ],
      )

  closed-IsOutcome :
      (i : CycleInput W) (symbol : String) (r : Result Ending) (l : AutonomousPaperLoop W)
      (c : Cycle W)
      → c.loop.config ≡ l.config
      → c.loop.cycles_completed ≡ l.cycles_completed
      → ((ending : Ending) → r ≡ ok ending → c.state ≡ cycle_completed)
      → IsOutcome i l (closed python i symbol (r, c))
  unfolding closed excepted
  closed-IsOutcome i symbol (ok a) l c same n done =
      completed-IsOutcome i symbol a _ l c.loop (done a refl, refl) same n
  closed-IsOutcome i symbol (err e) l c same n done =
      failure-IsOutcome i _ e l c.loop (refl, refl, refl) same (inl n)

  -- What a cycle in paper mode comes to, whatever the market, the learning engine and the paper
  -- engine raise, and whether or not the writes of the state succeed. Either it returns a result,
  -- which is the last one: the cycle is completed without an error and counted once, or it is
  -- failed, has the error, is reported as not executed, and is counted once, or twice where the
  -- error is that of the write which followed the first count. Or an exception leaves the cycle,
  -- and then it is that of the write under `except`, with the writing of the state configured.
  pub run_once_total :
      (i : CycleInput W) (l : AutonomousPaperLoop W)
      → is_paper_only l ≡ true
      → IsOutcome i l (run_once python py pow i l)
  unfolding run_once IsUncounted
  run_once_total i l h =
      let start : Cycle W = record { loop = l; state = cycle_started } in
      let (r, c) = cycle python py pow i start in
      let (counted, config) = (Moves-cycle IsUncounted-IsKept python py pow i).at start in
      rw h (
        closed-IsOutcome i (symbol_of i l.config) r l c config counted
          (λ ending k. (Ends-cycle i).at start ending k))
