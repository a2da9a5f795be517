-- ===== src/Risk/Config.antt =====
-- crypto_trading_mcp/risk/config.py: the kill switch, the merge of the limits and the allowed pairs.
-- The part of `StrategyConfig` that the merge reads is a record of its own, and so are the keys of
-- the guideline constraints; an empty dict of these counts as missing.
pub mod Limits
use crypto_trading_mcp.Prelude.{
  ℕ, String, Bool, true, false, ◌||◌, ◌&&◌, not, Option, none, some, List, [], ◌∷◌, ◌++◌, map, ◌==◌,
  one_of, any, non_empty, get_or, eqb, if◌then◌else◌,
}
use Prim.Native.Nat.{min, max}
use text.Mathlib.Text.{starts_with}
use crypto_trading_mcp.Text.{upper, replace, without, wildcard_stem}
use crypto_trading_mcp.Errors.{Result, ok, err, permission_error}
use crypto_trading_mcp.Float.{Float, ◌⊘◌, ◌=?◌, minimum, maximum}
use crypto_trading_mcp.Risk.Models.{GlobalRiskLimits}

-- KillSwitchState, which is all that a KillSwitch holds
pub record KillSwitch : Type 0 where
  pub active : Bool
  pub reason : Option String

-- KillSwitch.activate
unfoldable pub activate : String → KillSwitch → KillSwitch
activate reason k = record { active = true; reason = some reason }

-- KillSwitch.deactivate
unfoldable pub deactivate : Bool → KillSwitch → Result (Unit {0}) × KillSwitch
deactivate operator_authorized k =
    if operator_authorized
    then (ok tt, record { active = false; reason = none })
    else (err permission_error, k)

pub record StrategyRisk (W : Type 0) : Type 0 where
  pub risk_per_trade_percent : W
  pub max_daily_loss_percent : W
  pub max_trades_per_day : ℕ
  pub cooldown_bars_between_trades : ℕ
  pub min_risk_reward_ratio : W

pub record OkfConstraints (W : Type 0) : Type 0 where
  pub max_risk_per_trade_pct : Option W
  pub max_daily_loss_pct : Option W
  pub max_drawdown_pct : Option W
  pub max_trades_per_day : Option ℕ
  pub kelly_base_fraction : Option W
  pub cooldown_bars : Option ℕ
  pub correlation_enabled : Option Bool
  pub risk_on_assets : List String
  pub correlated_long_blockers : List String
  pub low_turnover_enabled : Option Bool
  pub forbidden_styles : List String

pub data Limit (W : Type 0) : Type 0 where
  real : W → Limit W
  count : ℕ → Limit W

pub record Conflict (W : Type 0) : Type 0 where
  pub field : String
  pub system_or_strategy : Limit W
  pub okf : Limit W
  pub effective : Limit W

pub record EffectiveLimits (W : Type 0) : Type 0 where
  pub risk_per_trade_pct : W
  pub max_daily_loss_pct : W
  pub max_drawdown_pct : W
  pub max_trades_per_day : ℕ
  pub cooldown_bars : ℕ
  pub min_risk_reward : W
  pub max_position_pct : W
  pub max_trade_pct : W
  pub max_portfolio_exposure_pct : W
  pub max_slippage_pct : W
  pub max_leverage : W
  pub require_stop_loss : Bool
  pub min_liquidity_usd : W
  pub min_confidence : W
  pub kelly_fraction : W
  pub max_consecutive_api_failures : ℕ
  pub allowed_pairs : List String
  pub okf_conflicts : List (Conflict W)

module _ {W : Type 0} ⦃f : Float W⦄ where
  open f use {dec}

  -- The limits before the guidelines: the stricter of the global and the strategy's.
  pub strategy_limits : GlobalRiskLimits W → Option (StrategyRisk W) → EffectiveLimits W
  strategy_limits g strategy = record {
    risk_per_trade_pct = elim strategy [
      | none ↦ g.max_trade_pct
      | some s ↦ minimum g.max_trade_pct (s.risk_per_trade_percent ⊘ dec 100 0)
    ];
    max_daily_loss_pct = elim strategy [
      | none ↦ g.max_daily_loss_pct
      | some s ↦ minimum g.max_daily_loss_pct (s.max_daily_loss_percent ⊘ dec 100 0)
    ];
    max_drawdown_pct = g.max_drawdown_pct;
    max_trades_per_day = elim strategy [
      | none ↦ g.max_trades_per_day
      | some s ↦ min g.max_trades_per_day s.max_trades_per_day
    ];
    cooldown_bars = elim strategy [ none ↦ 0 | some s ↦ s.cooldown_bars_between_trades ];
    min_risk_reward = elim strategy [
      | none ↦ maximum g.min_risk_reward (dec 1 0)
      | some s ↦ maximum g.min_risk_reward s.min_risk_reward_ratio
    ];
    max_position_pct = g.max_position_pct;
    max_trade_pct = g.max_trade_pct;
    max_portfolio_exposure_pct = g.max_portfolio_exposure_pct;
    max_slippage_pct = g.max_slippage_pct;
    max_leverage = g.max_leverage;
    require_stop_loss = g.require_stop_loss;
    min_liquidity_usd = g.min_liquidity_usd;
    min_confidence = g.min_confidence;
    kelly_fraction = g.kelly_fraction;
    max_consecutive_api_failures = g.max_consecutive_api_failures;
    allowed_pairs = g.allowed_pairs;
    okf_conflicts = [];
  }

  -- What `_min_field` appends, for a float and for an int.
  conflict : String → W → W → List (Conflict W)
  conflict name current okf =
      if current =? okf
      then []
      else record {
        field = name;
        system_or_strategy = real current;
        okf = real okf;
        effective = real (minimum current okf);
      }
        ∷ []

  conflict_count : String → ℕ → ℕ → List (Conflict W)
  conflict_count name current okf =
      if eqb current okf
      then []
      else record {
        field = name;
        system_or_strategy = count current;
        okf = count okf;
        effective = count (min current okf);
      }
        ∷ []

  -- The block `if okf_constraints`, over the limits so far.
  pub apply_okf : EffectiveLimits W → OkfConstraints W → EffectiveLimits W
  unfolding conflict conflict_count
  apply_okf l k =
      let risk = get_or k.max_risk_per_trade_pct l.risk_per_trade_pct in
      let daily = get_or k.max_daily_loss_pct l.max_daily_loss_pct in
      let dd = get_or k.max_drawdown_pct l.max_drawdown_pct in
      let trades = get_or k.max_trades_per_day l.max_trades_per_day in
      let kelly = get_or k.kelly_base_fraction l.kelly_fraction in
      record l {
        risk_per_trade_pct = minimum l.risk_per_trade_pct risk;
        max_daily_loss_pct = minimum l.max_daily_loss_pct daily;
        max_drawdown_pct = minimum l.max_drawdown_pct dd;
        max_trades_per_day = min l.max_trades_per_day trades;
        kelly_fraction = minimum l.kelly_fraction kelly;
        cooldown_bars = max l.cooldown_bars (get_or k.cooldown_bars 0);
        okf_conflicts =
            conflict "max_risk_per_trade_pct" l.risk_per_trade_pct risk
            ++ (conflict "max_daily_loss_pct" l.max_daily_loss_pct daily
                ++ (conflict "max_drawdown_pct" l.max_drawdown_pct dd
                    ++ (conflict_count "max_trades_per_day" l.max_trades_per_day trades
                        ++ conflict "kelly_fraction" l.kelly_fraction kelly)));
      }

  -- merge_effective_limits
  unfoldable pub merge_effective_limits :
      GlobalRiskLimits W → Option (StrategyRisk W) → Option (OkfConstraints W) → EffectiveLimits W
  unfolding strategy_limits apply_okf
  merge_effective_limits g strategy none = strategy_limits g strategy
  merge_effective_limits g strategy (some k) = apply_okf (strategy_limits g strategy) k

-- The spellings of a symbol that `pair_allowed` compares.
pair_candidates : String → List String
pair_candidates sym =
    sym ∷ replace sym "-" "/" ∷ without "/" sym ∷ without "-" sym ∷ replace sym "/" "-" ∷ []

matches_wildcard : String → String → Bool
matches_wildcard sym pattern = elim (wildcard_stem pattern) [
  | none ↦ false
  | some stem ↦ starts_with sym stem
]

-- pair_allowed
unfoldable pub pair_allowed : String → List String → Bool
unfolding pair_candidates matches_wildcard
pair_allowed symbol allowed =
    let sym = upper symbol in
    not (non_empty allowed)
    || any (λ c. one_of c (map upper allowed)) (pair_candidates sym)
    || any (matches_wildcard sym) (map upper allowed)
    || any (λ c. one_of c (map (λ a. upper (replace a "-" "/")) allowed)) (pair_candidates sym)
