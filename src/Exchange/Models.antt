-- ===== src/Exchange/Models.antt =====
-- crypto_trading_mcp/exchange/models.py: the enumerations, the order with its table of status
-- transitions, and the fill. Of `metadata` the keys that the paper exchange reads are fields.
pub mod Status
use crypto_trading_mcp.Prelude.{String, Bool, true, false, Option, List, [], ◌∷◌, if◌then◌else◌}
use crypto_trading_mcp.Errors.{Result, ok, err, value_error}
use crypto_trading_mcp.Machine.{contains}

pub data AssetClass : Type 0 where
  crypto equity etf commodity future prediction_contract : AssetClass

pub data OrderType : Type 0 where
  market limit stop stop_limit take_profit : OrderType

pub data OrderSide : Type 0 where
  buy sell buy_yes sell_yes buy_no sell_no : OrderSide

pub data OrderStatus : Type 0 where
  created validated submitted partially_filled filled cancelled rejected expired : OrderStatus

unfoldable pub OrderStatus-discrete : Discrete OrderStatus
OrderStatus-discrete = hlevel

-- ORDER_TRANSITIONS
unfoldable pub order_transitions : OrderStatus → List OrderStatus
order_transitions created =
    validated ∷ submitted ∷ filled ∷ partially_filled ∷ rejected ∷ cancelled ∷ []
order_transitions validated = submitted ∷ rejected ∷ cancelled ∷ []
order_transitions submitted = partially_filled ∷ filled ∷ cancelled ∷ expired ∷ []
order_transitions partially_filled = filled ∷ cancelled ∷ expired ∷ []
order_transitions filled = []
order_transitions cancelled = []
order_transitions rejected = []
order_transitions expired = []

pub record Fill (W : Type 0) : Type 0 where
  pub fill_id : Option String
  pub order_id : String
  pub symbol : String
  pub side : OrderSide
  pub quantity : W
  pub requested_price : Option W
  pub fill_price : W
  pub slippage : W
  pub fee : W
  pub liquidity : String

pub record Order (W : Type 0) : Type 0 where
  pub order_id : Option String
  pub client_order_id : Option String
  pub exchange : String
  pub session_id : Option String
  pub instrument_id : Option String
  pub symbol : String
  pub instrument_type : AssetClass
  pub side : OrderSide
  pub order_type : OrderType
  pub quantity : W
  pub filled_quantity : W
  pub limit_price : Option W
  pub stop_price : Option W
  pub status : OrderStatus
  pub strategy_id : Option String
  pub strategy_version : Option String
  pub requested_price : Option W
  pub average_fill_price : Option W
  pub fees : W
  pub slippage : W
  pub reject_reason : Option String
  pub updated_at : String
  pub stop_loss : Option W
  pub take_profit : Option W
  pub fills : List (Fill W)

-- Order.transition. The aliases NEW and OPEN are the members that they alias, so the look-up by
-- value finds what the look-up by member does. `now` is the clock's reading. A change to the present status is no change, and
-- leaves the time stamp; an exception leaves the order.
unfoldable pub transition :
    {W : Type 0} → String → OrderStatus → Order W → Result (Unit {0}) × Order W
transition now target o = elim (OrderStatus-discrete o.status target) [
  | yes e ↦ (ok tt, o)
  | no n ↦
      if contains OrderStatus-discrete target (order_transitions o.status)
      then (ok tt, record o { status = target; updated_at = now })
      else (err value_error, o)
]

-- The values of the enumerations.
abbrev pub asset_value : AssetClass → String
asset_value crypto = "CRYPTO"
asset_value equity = "EQUITY"
asset_value etf = "ETF"
asset_value commodity = "COMMODITY"
asset_value future = "FUTURE"
asset_value prediction_contract = "PREDICTION_CONTRACT"

abbrev pub side_value : OrderSide → String
side_value buy = "BUY"
side_value sell = "SELL"
side_value buy_yes = "BUY_YES"
side_value sell_yes = "SELL_YES"
side_value buy_no = "BUY_NO"
side_value sell_no = "SELL_NO"

-- `side in {BUY, BUY_YES, BUY_NO}`; the other sides are {SELL, SELL_YES, SELL_NO}.
abbrev pub buys : OrderSide → Bool
buys buy = true
buys buy_yes = true
buys buy_no = true
buys _ = false
