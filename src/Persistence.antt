-- ===== src/Persistence.antt =====
-- crypto_trading_mcp/persistence/base.py: `DurableStore`, the interface of the stores behind the
-- ledger and the kill switch. SQLite and Postgres stand behind it and are not modelled: a store is
-- a parameter, which may fail to read, and whose writes are read back.

use crypto_trading_mcp.Prelude.{
  String, ◌≡◌, ◌&&◌, Option, none, some, List, [], ◌∷◌, arith, ◌==◌, if◌then◌else◌,
}
use crypto_trading_mcp.Errors.{Result, ok}

-- `V` is the type of the JSON values of the client.
pub record DurableStore (S V : Type 0) : Type 0 where
  -- put_json, get_json: collection, then key.
  pub put_json : String → String → V → S → S
  pub get_json : String → String → S → Result (Option V)
  -- INSERT … ON CONFLICT DO UPDATE, and SELECT by the primary key
  pub get-put :
      (c k c' k' : String) (v : V) (s : S)
      → get_json c' k' (put_json c k v s)
        ≡ (if (c == c') && (k == k') then ok (some v) else get_json c' k' s)

-- A store in memory, which meets the law.
abbrev pub Rows : Type 0 → Type 0
Rows V = List (String × String × V)

abbrev pub find_row : {V : Type 0} → String → String → Rows V → Option V
find_row c' k' [] = none
find_row c' k' ((c, k, v) ∷ rows) = if (c == c') && (k == k') then some v else find_row c' k' rows

pub find_row-cons :
    {V : Type 0} (c k c' k' : String) (v : V) (rows : Rows V)
    → ◌≡◌ {A = Result (Option V)}
        (ok (find_row c' k' ((c, k, v) ∷ rows)))
        (if (c == c') && (k == k') then ok (some v) else ok (find_row c' k' rows))
find_row-cons c k c' k' v rows = ground arith

abbrev pub memory_store : {V : Type 0} → DurableStore (Rows V) V
memory_store = record {
  put_json = λ c k v rows. (c, k, v) ∷ rows;
  get_json = λ c k rows. ok (find_row c k rows);
  get-put = find_row-cons;
}
