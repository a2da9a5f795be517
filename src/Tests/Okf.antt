-- ===== src/Tests/Okf.antt =====
-- The circuit breakers and the sizing at concrete inputs.
use crypto_trading_mcp.Prelude.{
  ◌≡◌, refl, ℕ, Bool, true, false, ◌||◌, not, none, some, List, [], ◌∷◌, map, is_some,
  if◌then◌else◌,
}
use crypto_trading_mcp.Errors.{err, runtime_error}
use crypto_trading_mcp.Float.{◌<=◌, nought}
use crypto_trading_mcp.Float.Ticks.{Ticks, ticks_float, Ticks-IsOrdered}
use crypto_trading_mcp.Risk.Config.{activate, deactivate}
use crypto_trading_mcp.Okf.Breakers.{Reading, OkfCircuitBreakers, breach_of, breach, evaluate}
use crypto_trading_mcp.Okf.Breakers.Latch.{
  Step, evaluation, deactivation, latch_run, step, run, signal, view, allows, breakers_refine,
}
use crypto_trading_mcp.Okf.Sizing.{quarter_kelly_fraction, quarter_kelly_fraction_bounds}

abbrev percent : ℕ → Ticks
percent n = ticks_float.dec n 2

abbrev fresh : OkfCircuitBreakers Ticks
fresh = record {
  kill_switch = record { active = false; reason = none };
  max_drawdown_pct = percent 10;
  max_daily_loss_pct = percent 5;
  kill_switch_file = "STOP";
  halted = false;
  last_event = none;
  events = [];
}

abbrev reading : ℕ → Reading Ticks
reading n = record {
  equity = percent 100_000;
  daily_pnl = nought;
  drawdown_pct = percent n;
  stop_file_present = false;
}

-- A drawdown of 12 per cent, whose cancellation raises, and an operator who clears the switch.
abbrev steps : List (Step Ticks Bool)
steps =
    evaluation none none "09:00" (reading 3)
    ∷ evaluation (some (err runtime_error)) none "09:01" (reading 12)
    ∷ deactivation true
    ∷ []

breakers_refine_example :
    let l = latch_run (view fresh) (map (signal fresh) steps) in
    (view (run (λ b. b) fresh steps) ≡ l)
    × (allows (evaluate (λ b. b) none none "09:02" (reading 2) (run (λ b. b) fresh steps)).0
        ≡ (if is_some (breach_of (reading 2) fresh) then false else not (l.halted || l.switch)))
breakers_refine_example = breakers_refine (λ b. b) fresh steps none none "09:02" (reading 2)

-- The breakers stay halted.
steps-view : view (run (λ b. b) fresh steps) ≡ record { halted = true; switch = false }
unfolding run step breach_of evaluate breach activate deactivate
steps-view = refl

quarter_kelly_fraction_bounds_example :
    let k = quarter_kelly_fraction (percent 60) (percent 200) (percent 25) (some (percent 8)) in
    ((nought <= k.effective_fraction) ≡ true) × ((k.effective_fraction <= percent 8) ≡ true)
quarter_kelly_fraction_bounds_example =
    quarter_kelly_fraction_bounds Ticks-IsOrdered (percent 60) (percent 200) (percent 25)
      (percent 8) refl
