-- ===== src/Okf/Turnover.antt =====
-- crypto_trading_mcp/okf/turnover.py: `LowTurnoverGuard`.
use crypto_trading_mcp.Prelude.{
  ℕ, String, Bool, true, false, ◌&&◌, not, Option, none, some, List, [], ◌∷◌, map, ◌==◌, one_of,
  ltb, leb, non_empty, get_or, if◌then◌else◌,
}
use crypto_trading_mcp.Text.{lower, strip}

pub record LowTurnoverGuard : Type 0 where
  pub enabled : Bool
  pub max_trades_per_day : ℕ
  pub min_cooldown_bars : ℕ
  pub forbidden_styles : List String

-- The constructor: an empty list of styles counts as missing. `preferred_styles` is only reported.
abbrev pub new : Bool → ℕ → ℕ → List String → LowTurnoverGuard
new enabled max_trades_per_day min_cooldown_bars forbidden_styles = record {
  enabled = enabled;
  max_trades_per_day = max_trades_per_day;
  min_cooldown_bars = min_cooldown_bars;
  forbidden_styles = map lower (
      if non_empty forbidden_styles
      then forbidden_styles
      else "uncontrolled_scalping" ∷ "high_frequency_scalping" ∷ []);
}

-- The decisions, with the reason code of each.
pub data TurnoverResult : Type 0 where
  low_turnover_disabled low_turnover_ok : TurnoverResult
  low_turnover_forbidden_style low_turnover_trade_cap low_turnover_cooldown : TurnoverResult

abbrev pub turnover_allowed : TurnoverResult → Bool
turnover_allowed low_turnover_disabled = true
turnover_allowed low_turnover_ok = true
turnover_allowed _ = false

-- Fewer bars since the last trade than the cooldown asks for.
abbrev pub in_cooldown : Option ℕ → ℕ → Bool
in_cooldown none cooldown = false
in_cooldown (some bars) cooldown = ltb 0 cooldown && ltb bars cooldown

-- LowTurnoverGuard.evaluate
unfoldable pub evaluate : LowTurnoverGuard → ℕ → Option ℕ → Option String → TurnoverResult
evaluate g trades_today bars_since_last_trade strategy_style =
    let style = strip (lower (get_or strategy_style "")) in
    if not g.enabled
    then low_turnover_disabled
    else if not (style == "") && one_of style g.forbidden_styles
    then low_turnover_forbidden_style
    else if leb g.max_trades_per_day trades_today
    then low_turnover_trade_cap
    else if in_cooldown bars_since_last_trade g.min_cooldown_bars
    then low_turnover_cooldown
    else low_turnover_ok
