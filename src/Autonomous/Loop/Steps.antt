-- ===== src/Autonomous/Loop/Steps.antt =====
-- What the steps of a cycle keep, the cycle keeps.
use crypto_trading_mcp.Prelude.{String, Bool, true, false}
use crypto_trading_mcp.Errors.{Result, ok, err}
use crypto_trading_mcp.Action.{Action, ◌>>=◌}
use crypto_trading_mcp.Action.Moves.{IsFrame, Moves, Moves-pure, Moves-gets, Moves-bind}
use crypto_trading_mcp.Float.{Float}
use crypto_trading_mcp.Risk.Correlation.{Powers}
use crypto_trading_mcp.Exchange.Ids.{Runtime}
use crypto_trading_mcp.Autonomous.States
use crypto_trading_mcp.Autonomous.States.{CycleState}
use crypto_trading_mcp.PaperTrading.Engine.{PaperTradingEngine}
use crypto_trading_mcp.Autonomous.Loop.{
  Python, Market, CycleInput, Cycle, move, settle, on_paper, mark_seen, concluded, proposed,
  guarded, analysed, cycle,
}

-- The steps that a cycle is made of.
pub record IsKept {W : Type 0} (R : Cycle W → Cycle W → Type 0) : Type 0 where
  pub frame : IsFrame R
  pub state : (u : CycleState) (c : Cycle W) → R c (record c { state = u })
  pub paper :
      (p : PaperTradingEngine W) (c : Cycle W)
      → R c (record c { loop = record c.loop { paper = p } })
  pub seen : (key : String) → Moves R (mark_seen key)

module _ {W : Type 0} {R : Cycle W → Cycle W → Type 0} (k : IsKept R) where
  pub Moves-move : (t : CycleState) → Moves R (move t)
  unfolding move
  Moves-move t = record { at = λ c. by_transition c (States.transition c.state t) }
    where
      by_transition :
          (c : Cycle W) (r : Result CycleState)
          → R c
              (elim r as (λ r. Result (Unit {0}) × Cycle W) [
                | ok u ↦ (ok tt, record c { state = u })
                | err e ↦ (err e, c)
              ]).1
      by_transition c (ok u) = k.state u c
      by_transition c (err e) = k.frame.stay c

  pub Moves-settle : {A : Type 0} (r : Result A) → Moves R (settle r)
  Moves-settle r = record { at = λ c. k.frame.stay c }

  pub Moves-on_paper : {A : Type 0} (m : Action (PaperTradingEngine W) A) → Moves R (on_paper m)
  Moves-on_paper m = record { at = λ c. k.paper _ c }

  -- A step, and then the rest.
  pub step_then :
      {A B : Type 0} (m : Action (Cycle W) A) (f : A → Action (Cycle W) B)
      → Moves R m
      → ((a : A) → Moves R (f a))
      → Moves R (m >>= f)
  step_then m f h g = Moves-bind k.frame m f h g

module _ {W : Type 0} ⦃f : Float W⦄ {R : Cycle W → Cycle W → Type 0} (k : IsKept R) where
  pub Moves-concluded : (i : CycleInput W) (key : String) (b : Bool) → Moves R (concluded i key b)
  unfolding concluded
  Moves-concluded i key true =
      search (step_then k, Moves-move k, Moves-settle k, k.seen, Moves-pure k.frame) depth 20
  Moves-concluded i key false = search (step_then k, Moves-move k, Moves-pure k.frame)

  pub Moves-proposed :
      (py : Runtime W) (pow : Powers W) (i : CycleInput W) (key : String) (last : W)
      → Moves R (proposed py pow i key last)
  unfolding proposed
  Moves-proposed py pow i key last =
      search
        (step_then k, Moves-move k, Moves-on_paper k, Moves-gets k.frame, Moves-concluded i key)

  pub Moves-guarded :
      (py : Runtime W) (pow : Powers W) (i : CycleInput W) (key : String) (last : W) (b : Bool)
      → Moves R (guarded py pow i key last b)
  unfolding guarded
  Moves-guarded py pow i key last true = search (step_then k, Moves-move k, Moves-pure k.frame)
  Moves-guarded py pow i key last false = Moves-proposed py pow i key last

  pub Moves-analysed :
      (python : Python) (py : Runtime W) (pow : Powers W) (i : CycleInput W) (m : Market W)
      (b : Bool)
      → Moves R (analysed python py pow i m b)
  unfolding analysed
  Moves-analysed python py pow i m true =
      search (step_then k, Moves-move k, Moves-gets k.frame, Moves-guarded py pow i) depth 20
  Moves-analysed python py pow i m false = search (step_then k, Moves-move k, Moves-pure k.frame)

  pub Moves-cycle :
      (python : Python) (py : Runtime W) (pow : Powers W) (i : CycleInput W)
      → Moves R (cycle python py pow i)
  unfolding cycle
  Moves-cycle python py pow i =
      search (step_then k, Moves-move k, Moves-settle k, Moves-analysed python py pow i)
