-- ===== src/Tests/Compliance.antt =====
-- The compliance gate at a concrete order.
use crypto_trading_mcp.Prelude.{◌≡◌, refl, ◌↔◌, ℕ, true, false, some, [], ◌∷◌}
use crypto_trading_mcp.Float.Ticks.{Ticks, ticks_float}
use crypto_trading_mcp.Compliance.{ComplianceConfig, ComplianceRequest, evaluate}
use crypto_trading_mcp.Compliance.Approval.{IsCompliant, compliance_approved_iff}

abbrev usd : ℕ → Ticks
usd n = ticks_float.dec n 0

abbrev config : ComplianceConfig Ticks
config = record {
  enabled = true;
  blocked_strategies = "martingale" ∷ [];
  blocked_asset_classes = [];
  require_paper_mode = true;
  max_turnover_usd_per_day = usd 1_000_000;
  allow_prediction_markets = false;
  allow_futures = true;
}

abbrev request : ComplianceRequest Ticks
request = record {
  strategy_id = some "momentum";
  asset_class = "FUTURE";
  notional = usd 5_000;
  daily_turnover = usd 20_000;
  trading_mode = "paper";
  live_trading_enabled = false;
}

compliance_approved_iff_example :
    ((evaluate config request).approved ≡ true) ↔ IsCompliant config request
compliance_approved_iff_example = compliance_approved_iff config request refl
