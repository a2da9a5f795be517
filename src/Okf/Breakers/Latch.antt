-- ===== src/Okf/Breakers/Latch.antt =====
-- The circuit breakers as two latches: the halt, which nothing lifts, and the kill switch, which an
-- authorized operator clears.
use crypto_trading_mcp.Prelude.{
  ◌≡◌, refl, ap, sym, ◌∙◌, String, Bool, true, false, ◌||◌, not, Option, none, some, List, [], ◌∷◌,
  map, is_some, arith, if◌then◌else◌,
}
use crypto_trading_mcp.Dict.{Dict}
use crypto_trading_mcp.Errors.{Result, ok, err}
use crypto_trading_mcp.Float.{Float}
use crypto_trading_mcp.Risk.Config.{KillSwitch}
use crypto_trading_mcp.Risk.Config
use crypto_trading_mcp.Okf.Breakers.{
  Reading, Breach, OkfCircuitBreakers, Verdict, quiet, new_intents_allowed, breach_of, breach,
  evaluate,
}

-- What can happen to the breakers and to the kill switch that they share with the operator.
pub data Step (W J : Type 0) : Type 0 where
  evaluation : Option (Result (Dict J)) → Option (Result (Dict J)) → String → Reading W → Step W J
  deactivation : Bool → Step W J
  activation : String → Step W J

-- The abstract view: whether the loop is halted, and whether the kill switch is on.
pub record Latch : Type 0 where
  pub halted : Bool
  pub switch : Bool

-- What a step is to the latches.
pub data Signal : Type 0 where
  breaching passing clearing denied setting : Signal

abbrev pub latch_step : Signal → Latch → Latch
latch_step breaching l = record { halted = true; switch = true }
latch_step passing l = l
latch_step clearing l = record { halted = l.halted; switch = false }
latch_step denied l = l
latch_step setting l = record { halted = l.halted; switch = true }

unfoldable pub latch_run : Latch → List Signal → Latch
latch_run l [] = l
latch_run l (s ∷ ss) = latch_run (latch_step s l) ss

module _ {W J : Type 0} ⦃f : Float W⦄ (truth : Bool → J) where
  unfoldable pub step : Step W J → OkfCircuitBreakers W → OkfCircuitBreakers W
  step (evaluation cancel flatten now r) c = (evaluate truth cancel flatten now r c).1
  step (deactivation operator) c = record c {
    kill_switch = (Config.deactivate operator c.kill_switch).1;
  }
  step (activation reason) c = record c { kill_switch = Config.activate reason c.kill_switch }

  unfoldable pub run : OkfCircuitBreakers W → List (Step W J) → OkfCircuitBreakers W
  run c [] = c
  run c (s ∷ ss) = run (step s c) ss

module _ {W J : Type 0} ⦃f : Float W⦄ (c : OkfCircuitBreakers W) where
  -- The signal of a step, at the limits and the file of `c`.
  unfoldable pub signal : Step W J → Signal
  signal (evaluation cancel flatten now r) = if is_some (breach_of r c) then breaching else passing
  signal (deactivation operator) = if operator then clearing else denied
  signal (activation reason) = setting

-- Whether a call of `evaluate` lets new intents through; one that raises does not.
abbrev pub allows : {W J : Type 0} → Result (Verdict W J) → Bool
allows (ok v) = new_intents_allowed v
allows (err e) = false

abbrev pub view : {W : Type 0} → OkfCircuitBreakers W → Latch
view c = record { halted = c.halted; switch = c.kill_switch.active }

module _ {W J : Type 0} ⦃f : Float W⦄ (truth : Bool → J) where
  -- The same limits and file.
  abbrev IsLike : OkfCircuitBreakers W → OkfCircuitBreakers W → Type 0
  IsLike c d =
      (d.max_drawdown_pct ≡ c.max_drawdown_pct)
      × (d.max_daily_loss_pct ≡ c.max_daily_loss_pct)
      × (d.kill_switch_file ≡ c.kill_switch_file)

  -- A breach, whatever its callbacks come to.
  breach-view :
      (cancel flatten : Option (Result (Dict J))) (now : String) (b : Breach W)
      (c : OkfCircuitBreakers W)
      → let d = (breach truth cancel flatten now b c).1 in
        (d.halted ≡ true) × (d.kill_switch.active ≡ true) × IsLike c d
  unfolding breach Config.activate
  breach-view cancel flatten now b c =
      (ground arith, ground arith, (ground arith, ground arith, ground arith))

  breach-allows :
      (cancel flatten : Option (Result (Dict J))) (now : String) (b : Breach W)
      (c : OkfCircuitBreakers W)
      → allows (breach truth cancel flatten now b c).0 ≡ false
  unfolding breach
  breach-allows cancel flatten now b c = ground arith

  -- `evaluate`, at what its tests say.
  abbrev evaluated :
      Option (Result (Dict J))
      → Option (Result (Dict J))
      → String
      → OkfCircuitBreakers W
      → Option (Breach W)
      → Result (Verdict W J) × OkfCircuitBreakers W
  evaluated cancel flatten now c none = (ok (quiet (c.halted || c.kill_switch.active)), c)
  evaluated cancel flatten now c (some b) = breach truth cancel flatten now b c

  breach_of-like :
      (r : Reading W) (c d : OkfCircuitBreakers W) → IsLike c d → breach_of r d ≡ breach_of r c
  unfolding breach_of
  breach_of-like r c d (drawdown, loss, file) = rw (drawdown, loss, file) refl

  -- An evaluation, at what its tests say.
  evaluate-view :
      (cancel flatten : Option (Result (Dict J))) (now : String) (r : Reading W)
      (c : OkfCircuitBreakers W) (o : Option (Breach W))
      → breach_of r c ≡ o
      → let d = (evaluate truth cancel flatten now r c).1 in
        (view d ≡ latch_step (if is_some o then breaching else passing) (view c)) × IsLike c d
  unfolding evaluate
  evaluate-view cancel flatten now r c none h =
      rw (ap (evaluated cancel flatten now c) h) (refl, (refl, refl, refl))
  evaluate-view cancel flatten now r c (some b) h = rw (ap (evaluated cancel flatten now c) h) (
      let (halted, active, like) = breach-view cancel flatten now b c in
      (rw (halted, active) refl, like))

  evaluate-allows :
      (cancel flatten : Option (Result (Dict J))) (now : String) (r : Reading W)
      (c : OkfCircuitBreakers W) (o : Option (Breach W))
      → breach_of r c ≡ o
      → allows (evaluate truth cancel flatten now r c).0
        ≡ (if is_some o then false else not (c.halted || c.kill_switch.active))
  unfolding evaluate
  evaluate-allows cancel flatten now r c none h =
      ap (λ o. allows (evaluated cancel flatten now c o).0) h
  evaluate-allows cancel flatten now r c (some b) h =
      ap (λ o. allows (evaluated cancel flatten now c o).0) h ∙ breach-allows cancel flatten now b c

  step-view :
      (s : Step W J) (c : OkfCircuitBreakers W)
      → (view (step truth s c) ≡ latch_step (signal c s) (view c)) × IsLike c (step truth s c)
  unfolding step signal Config.activate Config.deactivate
  step-view (evaluation cancel flatten now r) c =
      evaluate-view cancel flatten now r c (breach_of r c) refl
  step-view (deactivation true) c = (refl, (refl, refl, refl))
  step-view (deactivation false) c = (refl, (refl, refl, refl))
  step-view (activation reason) c = (refl, (refl, refl, refl))

  signal-like : (s : Step W J) (c d : OkfCircuitBreakers W) → IsLike c d → signal d s ≡ signal c s
  unfolding signal
  signal-like (evaluation cancel flatten now r) c d like = rw (breach_of-like r c d like) refl
  signal-like (deactivation operator) c d like = refl
  signal-like (activation reason) c d like = refl

  run-view :
      (ss : List (Step W J)) (c d : OkfCircuitBreakers W)
      → IsLike c d
      → (view (run truth d ss) ≡ latch_run (view d) (map (signal c) ss)) × IsLike c (run truth d ss)
  unfolding run latch_run
  run-view [] c d like = (refl, like)
  run-view (s ∷ ss) c d (drawdown, loss, file) =
      let (same, (drawdown', loss', file')) = step-view s d in
      let (rest, like) =
        run-view ss c (step truth s d) (drawdown' ∙ drawdown, loss' ∙ loss, file' ∙ file) in
      (rw (sym (signal-like s c d (drawdown, loss, file))) (rw (sym same) rest), like)

  -- The circuit breakers refine two latches. After any evaluations, activations and deactivations
  -- of the kill switch, the halt and the switch are those of the latches: a breach sets both,
  -- whether or not its callbacks raise, an authorized operator clears the switch alone, and nothing
  -- clears the halt. A further evaluation allows new intents exactly when it has no breach and
  -- neither latch is set.
  pub breakers_refine :
      (c : OkfCircuitBreakers W) (ss : List (Step W J)) (cancel flatten : Option (Result (Dict J)))
      (now : String) (r : Reading W)
      → let l = latch_run (view c) (map (signal c) ss) in
        (view (run truth c ss) ≡ l)
        × (allows (evaluate truth cancel flatten now r (run truth c ss)).0
            ≡ (if is_some (breach_of r c) then false else not (l.halted || l.switch)))
  breakers_refine c ss cancel flatten now r =
      let (same, like) = run-view ss c c (refl, refl, refl) in
      (
        same,
        rw (sym same) (
            evaluate-allows cancel flatten now r (run truth c ss) (breach_of r c)
              (breach_of-like r c (run truth c ss) like)),
      )
