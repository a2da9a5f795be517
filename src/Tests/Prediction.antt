-- ===== src/Tests/Prediction.antt =====
-- The book of prediction markets at a concrete market.
use crypto_trading_mcp.Prelude.{
  ◌≡◌, refl, sym, false, none, List, [], ◌∷◌, ◌==◌, Bool-cases, inl, inr,
}
use crypto_trading_mcp.Dict.{Dict, get, remove}
use crypto_trading_mcp.Errors.{ok}
use crypto_trading_mcp.Float.{nought}
use crypto_trading_mcp.Float.Ticks.{Ticks, ticks_float}
use crypto_trading_mcp.Portfolio.Manager.{Position, close_position}
use crypto_trading_mcp.Exchange.Prediction.{
  PredictionContract, PredictionMarketBook, SettlementResult, resolve, settle_all, settle_market,
  settle_position, settled,
}
use crypto_trading_mcp.Exchange.Prediction.Settled.{IsFinite, resolve-settled}
use crypto_trading_mcp.Tests.PaperTrading.{units, cents, paper}

abbrev contract : PredictionContract Ticks
contract = record {
  market_id = "EVT";
  outcome = "Yes";
  price = cents 40;
  probability = cents 40;
  resolved = false;
  winning_outcome = none;
}

abbrev bet : Position Ticks
bet = record {
  symbol = "PREDICT/EVT/YES";
  side = "LONG";
  quantity = units 2;
  average_entry_price = cents 40;
  current_price = cents 40;
  market_value = cents 80;
  unrealized_pnl = nought;
  realized_pnl = nought;
  fees = nought;
  stop_loss = none;
  take_profit = none;
  strategy_id = none;
  strategy_version = none;
  opened_at = "09:00";
}

abbrev holdings : Dict (Position Ticks)
holdings = ("PREDICT/EVT/YES", bet) ∷ []

abbrev markets_book : PredictionMarketBook Ticks
markets_book = record {
  exchange = record paper.exchange {
    portfolio = record {
      cash = units 999;
      realized_pnl = nought;
      fees_paid = nought;
      peak_equity = units 1_000;
      day_start_equity = units 1_000;
      positions = holdings;
      trades_today = 1;
      last_trade_at = none;
    };
  };
  markets =
      ("PREDICT/EVT/YES", contract)
      ∷ ("PREDICT/EVT/NO", record contract { outcome = "No" })
      ∷ ("PREDICT/NEXT/YES", record contract { market_id = "NEXT" })
      ∷ [];
  settlements = [];
}

holdings-IsFinite : IsFinite holdings
unfolding get
holdings-IsFinite s p e = elim (Bool-cases ("PREDICT/EVT/YES" == s)) [
  | inl same ↦ let found : bet ≡ p = let e' = rw same at e in cc in rw (sym found) refl
  | inr other ↦ let e' = rw other at e in cc
]

resolved :
    (rs : List (SettlementResult Ticks)) × ((resolve "EVT" "yes" "18:00" markets_book).0 ≡ ok rs)
unfolding resolve settle_all settle_market settle_position get settled close_position remove
resolved = (_, refl)

resolve-settled_example :
    get "PREDICT/EVT/YES" (resolve "EVT" "yes" "18:00" markets_book).1.exchange.portfolio.positions
    ≡ none
unfolding get
resolve-settled_example =
    resolve-settled "EVT" "yes" "18:00" markets_book "PREDICT/EVT/YES" contract {rs = resolved.0}
      holdings-IsFinite resolved.1 refl refl
