-- ===== src/Tests/Exchange.antt =====
-- Orders, trailing stops and costs at concrete inputs.
use crypto_trading_mcp.Prelude.{
  ◌≡◌, ◌↔◌, refl, ℕ, ◌≤◌, String, true, false, none, some, List, [], ◌∷◌, if◌then◌else◌,
}
use crypto_trading_mcp.Errors.{ok}
use crypto_trading_mcp.Dict.{Dict, get}
use crypto_trading_mcp.Text.{upper, translate, translate_char}
use crypto_trading_mcp.Float.{◌<=◌, nought, maximum, minimum}
use crypto_trading_mcp.Float.Ticks.{Ticks, ticks_float, Ticks-IsOrdered, Ticks-IsMonotone}
use crypto_trading_mcp.Exchange.Models.{
  Order, OrderStatus, created, submitted, filled, cancelled, crypto, buy, market, transition,
}
use crypto_trading_mcp.Exchange.Models.Status.{
  is_terminal, drive, progress, drive-progress, drive-terminal_iff, transition-cancelled,
}
use crypto_trading_mcp.Exchange.Trailing.{TrailingStopState, atr}
use crypto_trading_mcp.Exchange.Trailing.Ratchet.{trail, is_tighter, trail_tighter}
use crypto_trading_mcp.Exchange.Costs.{
  SlippageEngine, volume_adjusted, raw_bps, slippage_bps, apply, is_buy,
}
use crypto_trading_mcp.Exchange.Costs.Bounds.{slippage_bps_bounds, apply_adverse}

-- `n` hundredths.
abbrev cents : ℕ → Ticks
cents n = ticks_float.dec n 2

abbrev order : OrderStatus → Order Ticks
order status = record {
  order_id = some "ORD-1";
  client_order_id = some "CLI-1";
  exchange = "paper";
  session_id = none;
  instrument_id = none;
  symbol = "BTC/USD";
  instrument_type = crypto;
  side = buy;
  order_type = market;
  quantity = cents 100;
  filled_quantity = nought;
  limit_price = none;
  stop_price = none;
  status = status;
  strategy_id = none;
  strategy_version = none;
  requested_price = none;
  average_fill_price = none;
  fees = nought;
  slippage = nought;
  reject_reason = none;
  updated_at = "09:00";
  stop_loss = none;
  take_profit = none;
  fills = [];
}

abbrev calls : List (String × OrderStatus)
calls = ("09:01", submitted) ∷ ("09:02", created) ∷ ("09:03", filled) ∷ []

drive-progress_example : progress submitted ≤ progress (drive (order submitted) calls).status
drive-progress_example = drive-progress (order submitted) calls

drive-terminal_iff_example :
    (is_terminal (order filled).status ≡ true)
    ↔ ((calls : List (String × OrderStatus)) → drive (order filled) calls ≡ order filled)
drive-terminal_iff_example = drive-terminal_iff (order filled)

transition-cancelled_example :
    ((transition "09:01" cancelled (order submitted)).0 ≡ ok tt)
    × ((transition "09:01" cancelled (order submitted)).1.status ≡ cancelled)
transition-cancelled_example = transition-cancelled "09:01" (order submitted) refl

abbrev rules : Dict (TrailingStopState Ticks)
rules =
    (
      "BTC/USD",
      record {
        mode = atr;
        atr = cents 150;
        multiplier = cents 200;
        percentage = cents 2;
        distance = nought;
        allow_widen = false;
      },
    )
    ∷ []

-- A price that rises, falls and is then missing.
abbrev prices : List Ticks
prices = cents 10_000 ∷ cents 10_700 ∷ cents 9_900 ∷ none ∷ []

trail_tighter_example :
    (s' : Ticks) × (trail rules "BTC/USD" "LONG" prices (some (cents 9_800)) ≡ some s')
    × (is_tighter "LONG" (cents 9_800) s' ≡ true)
unfolding upper translate translate_char get
trail_tighter_example =
    trail_tighter Ticks-IsOrdered rules "BTC/USD" "LONG" prices (cents 9_800) refl refl

abbrev engine : SlippageEngine Ticks
engine = record {
  enabled = true;
  model = volume_adjusted;
  default_bps = cents 500;
  max_bps = cents 5_000;
  percentage = cents 5;
  volatility_multiplier = cents 100;
  volume_impact = cents 1_000;
}

-- 5 basis points, and 50 for each time that the daily volume goes into the order, cut to `max_bps`.
engine_bps : slippage_bps engine none (some (cents 300)) (some (cents 100)) ≡ cents 5_000
unfolding slippage_bps raw_bps maximum minimum
engine_bps = refl

slippage_bps_bounds_example :
    ((nought <= slippage_bps engine none (some (cents 300)) (some (cents 100))) ≡ true)
    × ((slippage_bps engine none (some (cents 300)) (some (cents 100)) <= engine.max_bps) ≡ true)
slippage_bps_bounds_example =
    slippage_bps_bounds Ticks-IsOrdered Ticks-IsMonotone engine none (some (cents 300))
      (some (cents 100)) refl (rw (engine_bps) refl)

-- A prediction contract at 0.80.
apply_adverse_example :
    (if is_buy "BUY_YES"
      then cents 80
        <= (apply engine "BUY_YES"
            (cents 80)
            true
            none
            (some (cents 300))
            (some (cents 100))).fill_price
      else (apply engine "BUY_YES"
          (cents 80)
          true
          none
          (some (cents 300))
          (some (cents 100))).fill_price
        <= cents 80)
    ≡ true
unfolding upper translate translate_char
apply_adverse_example =
    apply_adverse Ticks-IsOrdered Ticks-IsMonotone engine "BUY_YES" (cents 80) (cents 5_000) true
      none (some (cents 300)) (some (cents 100)) refl (λ h. refl) refl engine_bps refl refl refl
      refl
