-- ===== src/Exchange/Prediction.antt =====
-- crypto_trading_mcp/exchange/prediction.py and settlement.py: `PredictionMarketBook` over the paper
-- exchange. The attributions of the models and the records' identifiers and times, which it only
-- keeps, are left out. A market stands once, so a contract is updated by its symbol.
pub mod Settled
use Prim.Native.String.{◌++◌ as join}
use crypto_trading_mcp.Prelude.{
  String, Bool, true, false, Option, none, some, List, [], ◌∷◌, ◌++◌, ◌==◌, get_or, is_some,
  if◌then◌else◌,
}
use crypto_trading_mcp.Text.{upper}
use crypto_trading_mcp.Dict.{Dict, get, put}
use crypto_trading_mcp.Errors.{PyError, Result, ok, err, key_error}
use crypto_trading_mcp.Action.{continue}
use crypto_trading_mcp.Float.{Float, nought}
use crypto_trading_mcp.Portfolio.Manager.{PortfolioManager, close_position}
use crypto_trading_mcp.Exchange.Ids.{Runtime}
use crypto_trading_mcp.Exchange.Models
use crypto_trading_mcp.Exchange.Models.{Order, OrderSide, AssetClass}
use crypto_trading_mcp.Exchange.Paper.State.{PaperExchange, set_price}
use crypto_trading_mcp.Exchange.Paper.Orders.{create_order}

pub record PredictionContract (W : Type 0) : Type 0 where
  pub market_id : String
  pub outcome : String
  pub price : W
  pub probability : W
  pub resolved : Bool
  pub winning_outcome : Option String

-- PredictionContract.symbol
unfoldable pub symbol_of : {W : Type 0} → PredictionContract W → String
symbol_of c = join "PREDICT/" (join c.market_id (join "/" (upper c.outcome)))

pub record SettlementResult (W : Type 0) : Type 0 where
  pub market_id : String
  pub symbol : String
  pub winning_outcome : String
  pub settlement_value : W
  pub pnl : W

pub record PredictionMarketBook (W : Type 0) : Type 0 where
  pub exchange : PaperExchange W
  pub markets : Dict (PredictionContract W)
  pub settlements : List (SettlementResult W)

module _ {W : Type 0} ⦃f : Float W⦄ where
  -- prediction_settlement_value
  unfoldable pub prediction_settlement_value : String → String → W
  prediction_settlement_value held winning =
      if upper held == upper winning then f.dec 1 0 else nought

  -- PredictionMarketBook.register_market
  unfoldable pub register_market :
      PredictionContract W → PredictionMarketBook W → PredictionMarketBook W
  register_market c b =
      let symbol = symbol_of c in
      let x = set_price symbol c.price b.exchange in
      record b {
        markets = put symbol c b.markets;
        exchange = record x {
          instruments =
              put symbol (get_or (get symbol x.instruments) Models.prediction_contract)
                x.instruments;
        };
      }

  -- The order of `buy`.
  abbrev pub contract_order : String → W → OrderSide → Option String → String → Order W
  contract_order symbol quantity side strategy_id now = record {
    order_id = none;
    client_order_id = none;
    exchange = "paper";
    session_id = none;
    instrument_id = none;
    symbol = symbol;
    instrument_type = Models.prediction_contract;
    side = side;
    order_type = Models.market;
    quantity = quantity;
    filled_quantity = nought;
    limit_price = none;
    stop_price = none;
    status = Models.created;
    strategy_id = strategy_id;
    strategy_version = none;
    requested_price = none;
    average_fill_price = none;
    fees = nought;
    slippage = nought;
    reject_reason = none;
    updated_at = now;
    stop_loss = none;
    take_profit = none;
    fills = [];
  }

  -- PredictionMarketBook.buy
  unfoldable pub buy :
      Runtime W
      → String
      → W
      → OrderSide
      → Option String
      → String
      → PredictionMarketBook W
      → Result (Order W) × PredictionMarketBook W
  buy py symbol quantity side strategy_id now b = elim (get symbol b.markets) [
    | none ↦ (err key_error, b)
    | some c ↦
        let (r, x) =
          create_order py (contract_order symbol quantity side strategy_id now) (some c.price) now
            b.exchange in
        (r, record b { exchange = x })
  ]

  -- contract.resolved = True, contract.winning_outcome = winning
  abbrev pub decide :
      String → String → PredictionContract W → PredictionMarketBook W → PredictionMarketBook W
  decide symbol winning c b = record b {
    markets = put symbol (record c { resolved = true; winning_outcome = some winning }) b.markets;
  }

  -- What follows the close of a position.
  unfoldable pub settled :
      String
      → String
      → PredictionContract W
      → PredictionMarketBook W
      → Result W × PortfolioManager W
      → Result (Option (SettlementResult W)) × PredictionMarketBook W
  settled symbol winning c b (err e, m) =
      (err e, record b { exchange = record b.exchange { portfolio = m } })
  settled symbol winning c b (ok pnl, m) =
      let result : SettlementResult W = record {
        market_id = c.market_id;
        symbol = symbol;
        winning_outcome = upper winning;
        settlement_value = prediction_settlement_value c.outcome winning;
        pnl = pnl;
      } in
      (
        ok (some result),
        record b {
          exchange = record b.exchange { portfolio = m };
          settlements = b.settlements ++ result ∷ [];
        },
      )

  -- The position of a market, if there is one, is closed at the value of its outcome.
  unfoldable pub settle_position :
      String
      → String
      → PredictionContract W
      → String
      → PredictionMarketBook W
      → Result (Option (SettlementResult W)) × PredictionMarketBook W
  settle_position symbol winning c now b =
      let value = prediction_settlement_value c.outcome winning in
      let closed = close_position symbol none value nought now b.exchange.portfolio in
      if is_some (get symbol b.exchange.portfolio.positions)
      then settled symbol winning c b closed
      else (ok none, b)

  -- One round of the loop of `resolve`.
  unfoldable pub settle_market :
      String
      → String
      → String
      → PredictionContract W
      → String
      → PredictionMarketBook W
      → Result (Option (SettlementResult W)) × PredictionMarketBook W
  settle_market market_id winning symbol c now b =
      if c.market_id == market_id
      then settle_position symbol winning c now (decide symbol winning c b)
      else (ok none, b)

  abbrev pub listed : Option (SettlementResult W) → List (SettlementResult W)
  listed none = []
  listed (some r) = r ∷ []

  -- The loop over a copy of the markets.
  unfoldable pub settle_all :
      String
      → String
      → String
      → Dict (PredictionContract W)
      → PredictionMarketBook W
      → Result (List (SettlementResult W)) × PredictionMarketBook W
  settle_all market_id winning now [] b = (ok [], b)
  settle_all market_id winning now ((symbol, c) ∷ rest) b =
      continue (settle_market market_id winning symbol c now b) (λ r b'.
        continue (settle_all market_id winning now rest b') (λ rs b''. (ok (listed r ++ rs), b'')))

  -- PredictionMarketBook.resolve
  unfoldable pub resolve :
      String
      → String
      → String
      → PredictionMarketBook W
      → Result (List (SettlementResult W)) × PredictionMarketBook W
  resolve market_id winning_outcome now b =
      settle_all market_id (upper winning_outcome) now b.markets b
