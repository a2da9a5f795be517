-- ===== src/Exchange/Trailing.antt =====
-- crypto_trading_mcp/exchange/trailing.py: trailing stops by symbol.
pub mod Ratchet
use crypto_trading_mcp.Prelude.{String, Bool, Option, none, some, [], ◌∷◌, one_of, if◌then◌else◌}
use crypto_trading_mcp.Text.{upper}
use crypto_trading_mcp.Dict.{Dict, get, put}
use crypto_trading_mcp.Float.{Float, ◌⊕◌, ◌⊖◌, ◌⊗◌, ◌<=◌, nought, maximum, minimum}

pub data TrailingMode : Type 0 where
  atr percentage fixed_distance : TrailingMode

pub record TrailingStopState (W : Type 0) : Type 0 where
  pub mode : TrailingMode
  pub atr : W
  pub multiplier : W
  pub percentage : W
  pub distance : W
  pub allow_widen : Bool

-- `side in {"LONG", "BUY"}`
abbrev pub is_long : String → Bool
is_long side = one_of side ("LONG" ∷ "BUY" ∷ [])

module _ {W : Type 0} where
  -- TrailingStopEngine.configure
  pub configure :
      String → TrailingStopState W → Dict (TrailingStopState W) → Dict (TrailingStopState W)
  configure symbol state states = put (upper symbol) state states

module _ {W : Type 0} ⦃f : Float W⦄ where
  open f use {dec}

  -- TrailingStopEngine._ratchet
  pub ratchet : String → Option W → W → Bool → W
  ratchet side none candidate allow_widen = candidate
  ratchet side (some stop) candidate allow_widen =
      if allow_widen
      then candidate
      else if is_long side
      then maximum stop candidate
      else minimum stop candidate

  -- The candidate stop of each mode, or `none` where `update` returns the present stop.
  pub candidate : TrailingMode → TrailingStopState W → String → W → Option W
  candidate atr state side price =
      if state.atr <= nought
      then none
      else some (
          if is_long side
          then price ⊖ state.atr ⊗ state.multiplier
          else price ⊕ state.atr ⊗ state.multiplier)
  candidate percentage state side price = some (
      if is_long side
      then price ⊗ (dec 1 0 ⊖ state.percentage)
      else price ⊗ (dec 1 0 ⊕ state.percentage))
  candidate fixed_distance state side price =
      if state.distance <= nought
      then none
      else some (if is_long side then price ⊖ state.distance else price ⊕ state.distance)

  advance : Option (TrailingStopState W) → String → W → Option W → Option W
  unfolding candidate ratchet
  advance none side price stop = stop
  advance (some state) side price stop = elim (candidate state.mode state side price) [
    | none ↦ stop
    | some c ↦ some (ratchet side stop c state.allow_widen)
  ]

  -- TrailingStopEngine.update
  pub update : Dict (TrailingStopState W) → String → String → W → Option W → Option W
  unfolding advance
  update states symbol side price stop = advance (get (upper symbol) states) (upper side) price stop
