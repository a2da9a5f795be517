-- ===== src/Autonomous/Loop/Marks.antt =====
-- A cycle that trades leaves its key behind, and no key is forgotten.
use crypto_trading_mcp.Prelude.{
  ◌≡◌, refl, ◌∙◌, sym, String, Bool, true, false, eq_iff, one_of, arith,
}
use crypto_trading_mcp.Errors.{Result, ok, err}
use crypto_trading_mcp.Action.{Action, pure, gets, continue, ◌>>=◌}
use crypto_trading_mcp.Action.Moves.{Moves, Moves-pure}
use crypto_trading_mcp.Machine
use crypto_trading_mcp.Float.{Float}
use crypto_trading_mcp.Risk.Correlation.{Powers}
use crypto_trading_mcp.Exchange.Ids.{Runtime}
use crypto_trading_mcp.Autonomous.States
use crypto_trading_mcp.Autonomous.States.{
  CycleState, cycle_started, market_data_ready, cycle_completed,
}
use crypto_trading_mcp.Autonomous.Loop.{
  Python, Market, CycleInput, AutonomousPaperLoop, Cycle, Ending, key_of, move, mark_seen,
  concluded, proposed, guarded, analysed, keyed, cycle,
}
use crypto_trading_mcp.Autonomous.Loop.Steps.{IsKept, Moves-move, Moves-settle, step_then}

module _ {W : Type 0} where
  -- The configuration stays, and no key is forgotten.
  pub record Remembers (c d : AutonomousPaperLoop W) : Type 0 where
    pub config : d.config ≡ c.config
    pub keys :
        (key : String) → one_of key c.seen_idempotency ≡ true → one_of key d.seen_idempotency ≡ true

  pub Remembers-trans :
      (c d e : AutonomousPaperLoop W) → Remembers c d → Remembers d e → Remembers c e
  Remembers-trans c d e h k = record {
    config = k.config ∙ h.config;
    keys = λ key m. k.keys key (h.keys key m);
  }

  abbrev pub CycleRemembers : Cycle W → Cycle W → Type 0
  CycleRemembers c d = Remembers c.loop d.loop

  pub CycleRemembers-IsKept : IsKept CycleRemembers
  CycleRemembers-IsKept = record {
    frame = record {
      stay = λ c. record { config = refl; keys = λ key m. m };
      chain = λ c d e h k. Remembers-trans c.loop d.loop e.loop h k;
    };
    state = λ u c. record { config = refl; keys = λ key m. m };
    paper = λ p c. record { config = refl; keys = λ key m. m };
    seen = λ new. record { at = λ c. record { config = refl; keys = λ key m. ground arith } };
  }

  -- An ending that was executed leaves the key behind.
  record Marks (key : String) (m : Action (Cycle W) Ending) : Type 0 where
    at :
        (c : Cycle W) (a : Ending)
        → (m c).0 ≡ ok a
        → a.executed ≡ true
        → one_of key (m c).1.loop.seen_idempotency ≡ true

  Marks-bind :
      {A : Type 0} (key : String) (m : Action (Cycle W) A) (f : A → Action (Cycle W) Ending)
      → ((a : A) → Marks key (f a))
      → Marks key (m >>= f)
  Marks-bind {A} key m f h = record { at = λ c. after (m c) }
    where
      after :
          (r : Result A × Cycle W) (b : Ending)
          → (continue r f).0 ≡ ok b
          → b.executed ≡ true
          → one_of key (continue r f).1.loop.seen_idempotency ≡ true
      after (ok a, c) b k e = (h a).at c b k e
      after (err x, c) b k e = cc

  -- What follows the mark keeps it.
  Marks-mark :
      (key : String) (f : Unit {0} → Action (Cycle W) Ending)
      → Moves CycleRemembers (f tt)
      → Marks key (mark_seen key >>= f)
  Marks-mark key f h = record {
    at = λ c a k e. (h.at (mark_seen key c).1).keys key (ground (arith, eq_iff key key));
  }

  Marks-idle :
      (key : String) (a : Ending)
      → a.executed ≡ false
      → Marks key (move {W = W} cycle_completed >>= λ _. pure a)
  unfolding move States.transition Machine.transition
  Marks-idle key a h = record { at = λ c b k e. ground arith }

module _ {W : Type 0} ⦃f : Float W⦄ (python : Python) (py : Runtime W) (pow : Powers W) where
  Marks-concluded : (i : CycleInput W) (key : String) (b : Bool) → Marks key (concluded i key b)
  unfolding concluded
  Marks-concluded i key true =
      let k = CycleRemembers-IsKept {W = W} in
      search
        (
          Marks-bind key,
          Marks-mark key,
          step_then k,
          Moves-move k,
          Moves-settle k,
          Moves-pure k.frame,
        )
        depth 20
  Marks-concluded i key false = Marks-bind key _ _ (λ _. Marks-idle key _ refl)

  Marks-guarded :
      (i : CycleInput W) (key : String) (last : W) (b : Bool)
      → Marks key (guarded py pow i key last b)
  unfolding guarded proposed
  Marks-guarded i key last true = Marks-idle key _ refl
  Marks-guarded i key last false = search (Marks-concluded i key, Marks-bind key) depth 20

  -- An ending that was executed leaves the cycle's own key behind.
  pub record MarksOwn (i : CycleInput W) (m : Action (Cycle W) Ending) : Type 0 where
    pub at :
        (c : Cycle W) (a : Ending)
        → (m c).0 ≡ ok a
        → a.executed ≡ true
        → one_of (key_of python i c.loop.config) (m c).1.loop.seen_idempotency ≡ true

  MarksOwn-bind :
      {A : Type 0} (i : CycleInput W) (m : Action (Cycle W) A) (g : A → Action (Cycle W) Ending)
      → Moves CycleRemembers m
      → ((a : A) → MarksOwn i (g a))
      → MarksOwn i (m >>= g)
  MarksOwn-bind {A} i m g h own = record { at = λ c. after c (m c) (h.at c) }
    where
      after :
          (c : Cycle W) (r : Result A × Cycle W)
          → Remembers c.loop r.1.loop
          → (b : Ending) → (continue r g).0 ≡ ok b
          → b.executed ≡ true
          → one_of (key_of python i c.loop.config) (continue r g).1.loop.seen_idempotency ≡ true
      after c (ok a, d) same b k e = rw (sym same.config) ((own a).at d b k e)
      after c (err x, d) same b k e = cc

  MarksOwn-keyed :
      (i : CycleInput W) (m : Market W)
      → MarksOwn i (gets (λ c. c.loop) >>= keyed python py pow i m)
  MarksOwn-keyed i m = record {
    at = λ c a k e. (Marks-guarded i (key_of python i c.loop.config) _ _).at c a k e;
  }

  MarksOwn-idle :
      (i : CycleInput W) (a : Ending)
      → a.executed ≡ false
      → MarksOwn i (move {W = W} cycle_completed >>= λ _. pure a)
  MarksOwn-idle i a h = record { at = λ c b k e. (Marks-idle _ a h).at c b k e }

  MarksOwn-analysed :
      (i : CycleInput W) (m : Market W) (b : Bool) → MarksOwn i (analysed python py pow i m b)
  unfolding analysed
  MarksOwn-analysed i m true =
      search (MarksOwn-keyed i m, MarksOwn-bind i, Moves-move CycleRemembers-IsKept) depth 20
  MarksOwn-analysed i m false = MarksOwn-idle i _ refl

  pub MarksOwn-cycle : (i : CycleInput W) → MarksOwn i (cycle python py pow i)
  unfolding cycle
  MarksOwn-cycle i =
      search
        (
          MarksOwn-analysed i,
          MarksOwn-bind i,
          Moves-move CycleRemembers-IsKept,
          Moves-settle CycleRemembers-IsKept,
        )
        depth 20
