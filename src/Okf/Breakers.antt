-- ===== src/Okf/Breakers.antt =====
-- crypto_trading_mcp/okf/circuit_breakers.py: `OKFCircuitBreakers`. What `cancel_fn` and `flatten_fn`
-- come to is an argument of `evaluate`: missing, a raise or a dict of JSON values. The sinks are
-- output only.
pub mod Latch
use Prim.Native.String.{◌++◌ as join}
use crypto_trading_mcp.Prelude.{
  String, Bool, true, false, ◌&&◌, ◌||◌, not, Option, none, some, List, [], ◌∷◌, ◌++◌,
  if◌then◌else◌,
}
use crypto_trading_mcp.Dict.{Dict, put}
use crypto_trading_mcp.Errors.{Result, ok, err, ◌>>=◌}
use crypto_trading_mcp.Float.{Float, ◌⊘◌, ◌>=◌, ◌>>◌, ◌<<◌, nought}
use crypto_trading_mcp.Risk.Config.{KillSwitch, activate}

-- The arguments of `evaluate`.
pub record Reading (W : Type 0) : Type 0 where
  pub equity : W
  pub daily_pnl : W
  pub drawdown_pct : W
  pub stop_file_present : Bool

-- A trigger with its details: the file, or the measure and its limit.
pub data Breach (W : Type 0) : Type 0 where
  stop_file : String → Breach W
  daily_loss : W → W → Breach W
  drawdown : W → W → Breach W

abbrev pub trigger : {W : Type 0} → Breach W → String
trigger (stop_file file) = "STOP_FILE"
trigger (daily_loss pct limit) = "DAILY_LOSS"
trigger (drawdown pct limit) = "DRAWDOWN"

abbrev pub reason_code : {W : Type 0} → Breach W → String
reason_code (stop_file file) = "KILL_SWITCH_STOP_FILE"
reason_code (daily_loss pct limit) = "OKF_DAILY_LOSS_BREACH"
reason_code (drawdown pct limit) = "OKF_DRAWDOWN_BREACH"

pub record CircuitBreakerEvent (W : Type 0) : Type 0 where
  pub breach : Breach W
  pub timestamp : String

pub record OkfCircuitBreakers (W : Type 0) : Type 0 where
  pub kill_switch : KillSwitch
  pub max_drawdown_pct : W
  pub max_daily_loss_pct : W
  pub kill_switch_file : String
  pub halted : Bool
  pub last_event : Option (CircuitBreakerEvent W)
  pub events : List (CircuitBreakerEvent W)

-- The reply of `evaluate`.
pub data Verdict (W J : Type 0) : Type 0 where
  quiet : Bool → Verdict W J
  breached : Breach W → Dict J → Dict J → Verdict W J

-- Its entry "new_intents_allowed".
abbrev pub new_intents_allowed : {W J : Type 0} → Verdict W J → Bool
new_intents_allowed (quiet halted) = not halted
new_intents_allowed (breached b cancelled flattened) = false

-- {**d, **e}
merged : {J : Type 0} → Dict J → Dict J → Dict J
merged d [] = d
merged d ((k, v) ∷ e) = merged (put k v d) e

-- What a callback adds to the reply; `truth` makes a JSON value of a Boolean.
attempt : {J : Type 0} → (Bool → J) → Option (Result (Dict J)) → Result (Dict J)
unfolding merged
attempt truth none = ok (("attempted", truth false) ∷ [])
attempt truth (some (ok reply)) = ok (merged (("attempted", truth true) ∷ []) reply)
attempt truth (some (err e)) = err e

module _ {W : Type 0} where
  -- The first lines of `_breach`, before the callbacks.
  abbrev pub tripped : Breach W → OkfCircuitBreakers W → OkfCircuitBreakers W
  tripped b c = record c {
    kill_switch = activate (join (reason_code b) (join ":" (trigger b))) c.kill_switch;
    halted = true;
  }

  abbrev pub logged : Breach W → String → OkfCircuitBreakers W → OkfCircuitBreakers W
  logged b now c = record c {
    last_event = some (record { breach = b; timestamp = now });
    events = c.events ++ record { breach = b; timestamp = now } ∷ [];
  }

  -- OKFCircuitBreakers._breach
  unfoldable pub breach :
      {J : Type 0}
      → (Bool → J)
      → Option (Result (Dict J))
      → Option (Result (Dict J))
      → String
      → Breach W
      → OkfCircuitBreakers W
      → Result (Verdict W J) × OkfCircuitBreakers W
  unfolding attempt
  breach truth cancel flatten now b c = elim (attempt truth cancel) [
    | err e ↦ (err e, tripped b c)
    | ok cancelled ↦ elim (attempt truth flatten) [
      | err e ↦ (err e, tripped b c)
      | ok flattened ↦ (ok (breached b cancelled flattened), logged b now (tripped b c))
    ]
  ]

module _ {W : Type 0} ⦃f : Float W⦄ where
  -- The three tests of `evaluate`, in their order.
  unfoldable pub breach_of : Reading W → OkfCircuitBreakers W → Option (Breach W)
  breach_of r c =
      let loss = f.abs r.daily_pnl ⊘ r.equity in
      if r.stop_file_present
      then some (stop_file c.kill_switch_file)
      else if ((r.equity >> nought) && (r.daily_pnl << nought)) && (loss >= c.max_daily_loss_pct)
      then some (daily_loss loss c.max_daily_loss_pct)
      else if r.drawdown_pct >= c.max_drawdown_pct
      then some (drawdown r.drawdown_pct c.max_drawdown_pct)
      else none

  -- OKFCircuitBreakers.evaluate
  unfoldable pub evaluate :
      {J : Type 0}
      → (Bool → J)
      → Option (Result (Dict J))
      → Option (Result (Dict J))
      → String
      → Reading W
      → OkfCircuitBreakers W
      → Result (Verdict W J) × OkfCircuitBreakers W
  evaluate truth cancel flatten now r c = elim (breach_of r c) [
    | none ↦ (ok (quiet (c.halted || c.kill_switch.active)), c)
    | some b ↦ breach truth cancel flatten now b c
  ]
