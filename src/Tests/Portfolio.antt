-- ===== src/Tests/Portfolio.antt =====
-- The portfolio at concrete orders.
use crypto_trading_mcp.Prelude.{◌≡◌, refl, ℕ, true, none, some, [], ◌∷◌}
use crypto_trading_mcp.Errors.{err, value_error, key_error}
use crypto_trading_mcp.Dict.{Dict, get}
use crypto_trading_mcp.Text.{upper, translate, translate_char}
use crypto_trading_mcp.Float.{◌<=◌, nought}
use crypto_trading_mcp.Float.Ticks.{Ticks, ticks_float, Ticks-IsOrdered, Ticks-IsMonotone}
use crypto_trading_mcp.Portfolio.Manager.{
  Position, PortfolioManager, Tags, snapshot, settle, open_position, close_position, book, booked,
  mark, mark_all, sum_positions,
}
use crypto_trading_mcp.Portfolio.Manager.Errors.{
  close_position_error, IsRaise, open_position_errors,
}
use crypto_trading_mcp.Portfolio.Manager.Frame.{close-open_position}
use crypto_trading_mcp.Portfolio.Manager.Snapshot.{snapshot_peak}

abbrev units : ℕ → Ticks
units n = ticks_float.dec n 0

abbrev tags : Tags Ticks
tags = record { stop_loss = none; take_profit = none; strategy_id = none; strategy_version = none }

abbrev bitcoin : Position Ticks
bitcoin = record {
  symbol = "BTC/USD";
  side = "LONG";
  quantity = units 2;
  average_entry_price = units 100;
  current_price = units 110;
  market_value = units 220;
  unrealized_pnl = units 20;
  realized_pnl = nought;
  fees = units 1;
  stop_loss = none;
  take_profit = none;
  strategy_id = none;
  strategy_version = none;
  opened_at = "09:00";
}

-- A portfolio that holds two bitcoins.
abbrev holder : PortfolioManager Ticks
holder = record {
  cash = units 1_000;
  realized_pnl = nought;
  fees_paid = units 1;
  peak_equity = units 1_300;
  day_start_equity = units 1_200;
  positions = ("BTC/USD", bitcoin) ∷ [];
  trades_today = 1;
  last_trade_at = some "09:00";
}

close_position_error_example :
    (close_position "ETH/USD" none (units 50) (units 1) "10:00" holder).1 ≡ holder
unfolding close_position get
close_position_error_example =
    close_position_error "ETH/USD" none (units 50) (units 1) "10:00" holder {e = key_error} refl

-- A sale of what is held: the proceeds are booked, then the request is refused.
refused_sale :
    (open_position "BTC/USD" "SHORT" (units 1) (units 110) (units 1) tags "10:00" holder).0
    ≡ err value_error
unfolding open_position settle book booked get upper translate translate_char
refused_sale = refl

open_position_errors_example :
    IsRaise "BTC/USD" "SHORT"
      (units 1)
      (units 110)
      (units 1)
      holder
      value_error
      (open_position "BTC/USD" "SHORT" (units 1) (units 110) (units 1) tags "10:00" holder).1
open_position_errors_example =
    open_position_errors "BTC/USD" "SHORT" (units 1) (units 110) (units 1) tags "10:00" holder
      refused_sale

close-open_position_example :
    (close_position "ETH/USD" none
      (units 60)
      (units 1)
      "11:00"
      (open_position "ETH/USD" "LONG"
        (units 3)
        (units 50)
        (units 1)
        tags
        "10:00"
        holder).1).1.positions
    ≡ holder.positions
unfolding settle get upper translate translate_char
close-open_position_example =
    close-open_position "ETH/USD" "LONG" (units 3) (units 50) (units 60) (units 1) (units 1) tags
      "10:00" "11:00" holder {cash = units 849} refl refl refl refl refl

abbrev marks : Dict Ticks
marks = ("BTC/USD", units 130) ∷ []

snapshot_peak_example :
    let (snap, m') = snapshot marks holder in
    ((holder.peak_equity <= m'.peak_equity) ≡ true)
    × ((snap.equity <= m'.peak_equity) ≡ true)
    × ((nought <= snap.drawdown_pct) ≡ true)
unfolding snapshot mark_all sum_positions mark get upper translate translate_char
snapshot_peak_example = snapshot_peak Ticks-IsOrdered Ticks-IsMonotone marks holder refl refl
