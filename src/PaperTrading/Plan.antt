-- ===== src/PaperTrading/Plan.antt =====
-- crypto_trading_mcp/execution/planner.py: `TradePlan`, with the keys of `confluence` that the paper
-- engine reads.
use crypto_trading_mcp.Prelude.{ℕ, String, Bool, Option, List}
use crypto_trading_mcp.Float.{Float}
use crypto_trading_mcp.Risk.Models.{TradeProposal}

pub record TradePlan (W : Type 0) : Type 0 where
  pub strategy_id : String
  pub strategy_version : String
  pub model_ids : List String
  pub symbol : String
  pub side : String
  pub entry_price : W
  pub quantity : W
  pub notional : W
  pub stop_loss : Option W
  pub take_profit : Option W
  pub risk_amount : W
  pub expected_fee : W
  pub expected_slippage : W
  pub risk_reward_ratio : Option W
  pub confidence : W
  pub status : String
  pub reason : Option String
  pub move_be_at_1r : Bool
  pub partial_tp_pct : Option W

-- TradePlan.to_proposal; the leverage of a proposal is 1.0 where it is not given.
unfoldable pub to_proposal :
    {W : Type 0} ⦃f : Float W⦄ → TradePlan W → Option W → Bool → Option ℕ → TradeProposal W
to_proposal ⦃f⦄ p liquidity_usd market_data_stale bars_since_last_trade = record {
  symbol = p.symbol;
  side = p.side;
  quantity = p.quantity;
  notional = p.notional;
  entry_price = p.entry_price;
  stop_loss = p.stop_loss;
  take_profit = p.take_profit;
  estimated_slippage_pct = p.expected_slippage;
  leverage = f.dec 1 0;
  confidence = p.confidence;
  model_ids = p.model_ids;
  liquidity_usd = liquidity_usd;
  market_data_stale = market_data_stale;
  bars_since_last_trade = bars_since_last_trade;
}
