-- ===== src/Exchange/Costs.antt =====
-- crypto_trading_mcp/exchange/fees.py and slippage.py: the trading fee and the simulated slippage
-- of a fill. The engines are taken as configured; the reading of the configuration file is not
-- modelled.
pub mod Bounds
use crypto_trading_mcp.Prelude.{
  String, Bool, Option, none, some, [], ◌∷◌, ◌==◌, one_of, get_or, if◌then◌else◌,
}
use Prim.Native.String.{◌++◌ as join}
use mathlib.Core.Option
use crypto_trading_mcp.Text.{upper, lower}
use crypto_trading_mcp.Dict.{Dict, get}
use crypto_trading_mcp.Float.{Float, ◌⊕◌, ◌⊖◌, ◌⊗◌, ◌⊘◌, ◌>>◌, nought, maximum, minimum}

pub record FeeResult (W : Type 0) : Type 0 where
  pub fee : W
  pub rate : W
  pub schedule : String

-- `explicit_default` is the test `"default_rate" in self._raw`.
pub record FeeEngine (W : Type 0) : Type 0 where
  pub default_rate : W
  pub maker_bps : W
  pub taker_bps : W
  pub by_asset_class : Dict W
  pub by_exchange : Dict (Dict W)
  pub explicit_default : Bool

pub data SlippageModel : Type 0 where
  fixed_bps percentage volatility_adjusted volume_adjusted : SlippageModel

pub record SlippageEngine (W : Type 0) : Type 0 where
  pub enabled : Bool
  pub model : SlippageModel
  pub default_bps : W
  pub max_bps : W
  pub percentage : W
  pub volatility_multiplier : W
  pub volume_impact : W

pub record SlippageResult (W : Type 0) : Type 0 where
  pub fill_price : W
  pub slippage_abs : W
  pub slippage_bps : W

-- A text that is missing or empty counts as false.
abbrev truthy : Option String → Option String
truthy none = none
truthy (some s) = if s == "" then none else some s

abbrev pub is_buy : String → Bool
is_buy side = one_of (upper side) ("BUY" ∷ "BUY_YES" ∷ "BUY_NO" ∷ "LONG" ∷ [])

module _ {W : Type 0} ⦃f : Float W⦄ where
  open f use {dec, abs, same}

  -- The look-up of a venue: an empty table counts as missing.
  venue_rate : Option (Dict W) → String → Option (W × String)
  venue_rate none liq = none
  venue_rate (some []) liq = none
  venue_rate (some venue) liq = elim (get (join liq "_bps") venue) [
    | some bps ↦ some (bps ⊘ dec 10_000 0, join ":" liq)
    | none ↦ Option.map (λ r. (r, ":default")) (get "default_rate" venue)
  ]

  exchange_rate : FeeEngine W → Option String → String → Option (W × String)
  unfolding venue_rate
  exchange_rate e none liq = none
  exchange_rate e (some venue) liq =
      Option.map (λ found. (found.0, join "exchange:" (join venue found.1)))
        (venue_rate (get (lower venue) e.by_exchange) liq)

  asset_rate : FeeEngine W → String → String → W × String
  asset_rate e ac liq = elim (get ac e.by_asset_class) [
    | some r ↦ (r, join "asset:" ac)
    | none ↦
        if e.explicit_default
        then (e.default_rate, "default_rate")
        else if liq == "maker"
        then (e.maker_bps ⊘ dec 10_000 0, "maker")
        else (e.taker_bps ⊘ dec 10_000 0, "taker")
  ]

  -- FeeEngine.rate_for: the rate with the name of the schedule that gave it.
  unfoldable pub rate_for : FeeEngine W → String → String → Option String → W × String
  unfolding exchange_rate asset_rate
  rate_for e asset_class liquidity exchange =
      elim (exchange_rate e (truthy exchange) (lower liquidity)) [
        | some found ↦ found
        | none ↦ asset_rate e (upper asset_class) (lower liquidity)
      ]

  -- FeeEngine.calculate
  unfoldable pub calculate : FeeEngine W → W → String → String → Option String → FeeResult W
  calculate e notional asset_class liquidity exchange =
      let (rate, schedule) = rate_for e asset_class liquidity exchange in
      record { fee = abs notional ⊗ rate; rate = rate; schedule = schedule }

  -- `float(x or d)`: zero counts as false.
  abbrev or_default : Option W → W → W
  or_default none d = d
  or_default (some x) d = if same x nought then d else x

  unfoldable pub raw_bps : SlippageEngine W → SlippageModel → Option W → Option W → Option W → W
  raw_bps s percentage volatility trade_qty adv = s.percentage ⊗ dec 10_000 0
  raw_bps s volatility_adjusted volatility trade_qty adv =
      s.default_bps ⊗ (dec 1 0 ⊕ abs (get_or volatility (dec 1 2)) ⊗ s.volatility_multiplier)
  raw_bps s volume_adjusted volatility trade_qty adv =
      let qty = or_default trade_qty nought in
      let average_daily = or_default adv (dec 1 0) in
      let participation = if average_daily >> nought then qty ⊘ average_daily else nought in
      s.default_bps ⊗ (dec 1 0 ⊕ participation ⊗ s.volume_impact)
  raw_bps s fixed_bps volatility trade_qty adv = s.default_bps

  -- SlippageEngine._bps
  unfoldable pub slippage_bps : SlippageEngine W → Option W → Option W → Option W → W
  unfolding raw_bps
  slippage_bps s volatility trade_qty adv =
      if s.enabled
      then minimum (maximum (raw_bps s s.model volatility trade_qty adv) nought) s.max_bps
      else nought

  -- SlippageEngine.apply
  unfoldable pub apply :
      SlippageEngine W → String → W → Bool → Option W → Option W → Option W → SlippageResult W
  apply s side market_price prediction volatility trade_qty adv =
      let bps = slippage_bps s volatility trade_qty adv in
      let slip = market_price ⊗ (bps ⊘ dec 10_000 0) in
      let moved = if is_buy side then market_price ⊕ slip else market_price ⊖ slip in
      let fill = if prediction then minimum (dec 1 0) (maximum nought moved) else moved in
      record { fill_price = fill; slippage_abs = abs (fill ⊖ market_price); slippage_bps = bps }
