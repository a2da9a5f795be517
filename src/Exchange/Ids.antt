-- ===== src/Exchange/Ids.antt =====
-- crypto_trading_mcp/exchange/models.py: the deterministic identifiers of orders and fills. SHA-256
-- and the formatting of numbers and exceptions are Python's, and are a parameter.
use Prim.Native.String.{◌++◌ as join}
use crypto_trading_mcp.Prelude.{ℕ, String, Option, none, some, ◌==◌, if◌then◌else◌, get_or}
use crypto_trading_mcp.Text.{upper}
use crypto_trading_mcp.Errors.{PyError}
use crypto_trading_mcp.Exchange.Models.{Order, Fill, side_value}

pub record Runtime (W : Type 0) : Type 0 where
  -- hashlib.sha256(raw.encode()).hexdigest()[:16]
  pub digest : String → String
  -- f"{x:.10f}", f"{n:06d}" and str(n)
  pub fixed : W → String
  pub padded : ℕ → String
  pub decimal : ℕ → String
  -- str(exc)
  pub message : PyError → String

-- A text that counts as true: present and not empty.
abbrev pub truthy : Option String → Option String
truthy none = none
truthy (some s) = if s == "" then none else some s

-- `a or b` on optional texts.
abbrev pub or_else : Option String → Option String → Option String
or_else a b = elim (truthy a) [ none ↦ b | some s ↦ some s ]

module _ {W : Type 0} (py : Runtime W) where
  open py use {digest, fixed, padded, decimal}

  -- deterministic_order_id
  pub order_id_of : String → ℕ → String → String → W → String
  order_id_of session_id sequence symbol side quantity =
      let raw = join session_id (
        join "|" (
          join (decimal sequence) (
            join "|"
              (join (upper symbol) (join "|" (join (upper side) (join "|" (fixed quantity)))))))) in
      join "ORD-" (join session_id (join "-" (join (padded sequence) (join "-" (digest raw)))))

  -- deterministic_fill_id
  pub fill_id_of : String → ℕ → W → W → String
  fill_id_of order_id sequence price quantity =
      let raw = join order_id (
        join "|"
          (join (decimal sequence) (join "|" (join (fixed price) (join "|" (fixed quantity)))))) in
      join "FILL-" (join (padded sequence) (join "-" (digest raw)))

  -- Order.ensure_id
  unfoldable pub ensure_order_id : String → ℕ → Order W → Order W
  ensure_order_id session_id sequence o = elim (truthy o.order_id) [
    | some id ↦ o
    | none ↦ record o {
      order_id = some (order_id_of session_id sequence o.symbol (side_value o.side) o.quantity);
      session_id = some (get_or (truthy o.session_id) session_id);
    }
  ]

  -- Fill.ensure_id
  unfoldable pub ensure_fill_id : ℕ → Fill W → Fill W
  ensure_fill_id sequence fill = elim (truthy fill.fill_id) [
    | some id ↦ fill
    | none ↦ record fill {
      fill_id = some (fill_id_of fill.order_id sequence fill.fill_price fill.quantity);
    }
  ]
