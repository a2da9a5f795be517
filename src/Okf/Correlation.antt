-- ===== src/Okf/Correlation.antt =====
-- crypto_trading_mcp/okf/correlation_gate.py: `OKFCorrelationGate`. Its sets are lists, and the
-- matched blockers come in the order of the configuration.
use crypto_trading_mcp.Prelude.{
  String, Bool, true, false, ◌&&◌, ◌||◌, not, Option, some, List, [], ◌∷◌, map, ◌==◌, one_of, any,
  all, non_empty, if◌then◌else◌,
}
use crypto_trading_mcp.Text.{upper, replace, without}
use crypto_trading_mcp.Dict.{Dict}
use crypto_trading_mcp.Float.{Float, ◌>>◌, nought}

-- _norm
unfoldable pub norm : String → String
norm symbol = upper (replace (replace symbol "-" "/") "_" "/")

pub record OkfCorrelationGate : Type 0 where
  pub enabled : Bool
  pub risk_on_assets : List String
  pub correlated_long_blockers : List String
  pub fail_closed_when_unavailable : Bool

abbrev pub new : Bool → List String → List String → OkfCorrelationGate
new enabled risk_on_assets correlated_long_blockers = record {
  enabled = enabled;
  risk_on_assets = map norm risk_on_assets;
  correlated_long_blockers = map norm correlated_long_blockers;
  fail_closed_when_unavailable = true;
}

-- The spellings of a symbol that are compared.
spellings : String → List String
spellings s = s ∷ without "/" s ∷ replace s "/" "-" ∷ []

-- OKFCorrelationGate.is_risk_on
pub is_risk_on : OkfCorrelationGate → String → Bool
unfolding spellings
is_risk_on g symbol =
    any (λ asset. any (λ c. one_of c (spellings asset)) (spellings (norm symbol))) g.risk_on_assets

pub data CorrelationResult : Type 0 where
  correlation_filter_disabled correlation_not_applicable_short : CorrelationResult
  correlation_not_applicable_modification correlation_not_risk_on_asset : CorrelationResult
  correlation_data_unavailable correlation_data_unavailable_fail_open : CorrelationResult
  correlation_filter_block correlation_ok : CorrelationResult

abbrev pub correlation_allowed : CorrelationResult → Bool
correlation_allowed correlation_data_unavailable = false
correlation_allowed correlation_filter_block = false
correlation_allowed _ = true

module _ {W : Type 0} ⦃f : Float W⦄ where
  -- Some open long position goes by the blocker's name. The keys of `longs` are normalized twice,
  -- as in the source.
  pub is_matched : Dict W → String → Bool
  is_matched [] blocker = false
  is_matched ((sym, qty) ∷ ps) blocker =
      (qty >> nought)
        && (norm (norm sym) == blocker || without "/" (norm (norm sym)) == without "/" blocker)
      || is_matched ps blocker

  -- Every configured blocker is held long, and there is one.
  pub all_matched : OkfCorrelationGate → Dict W → Bool
  all_matched g open_positions =
      non_empty g.correlated_long_blockers
      && all (is_matched open_positions) g.correlated_long_blockers

  by_positions : OkfCorrelationGate → Option (Dict W) → Bool → CorrelationResult
  by_positions g (some open_positions) true =
      if all_matched g open_positions then correlation_filter_block else correlation_ok
  by_positions g _ _ =
      if g.fail_closed_when_unavailable
      then correlation_data_unavailable
      else correlation_data_unavailable_fail_open

  -- OKFCorrelationGate.evaluate
  unfoldable pub evaluate :
      OkfCorrelationGate
      → String
      → String
      → Option (Dict W)
      → Bool
      → Bool
      → Bool
      → CorrelationResult
  unfolding by_positions
  evaluate g symbol side open_positions available is_new_entry is_modification =
      if not g.enabled
      then correlation_filter_disabled
      else if one_of (upper side) ("SHORT" ∷ "SELL" ∷ [])
      then correlation_not_applicable_short
      else if is_modification || not is_new_entry
      then correlation_not_applicable_modification
      else if not (is_risk_on g symbol)
      then correlation_not_risk_on_asset
      else by_positions g open_positions available
