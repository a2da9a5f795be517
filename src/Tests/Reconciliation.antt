-- ===== src/Tests/Reconciliation.antt =====
-- The reconciliation at concrete snapshots.
use crypto_trading_mcp.Prelude.{
  ◌≡◌, ◌↔◌, refl, String, true, none, some, List, [], ◌∷◌, ◌==◌, eq_iff, one_of, arith,
  if◌then◌else◌,
}
use crypto_trading_mcp.Dict.{get}
use crypto_trading_mcp.Errors.{ok}
use crypto_trading_mcp.Persistence.{Rows, memory_store}
use crypto_trading_mcp.Exchange.Ids.{truthy}
use crypto_trading_mcp.Reconciliation.Service.{
  Json, Snapshot, Reconciliation, Service, compare, status, judged, persist, field_drifts,
  position_drifts,
}
use crypto_trading_mcp.Reconciliation.Service.Agreement.{IsPython, IsAgreed, compare_allows}

-- The elements of a list, each once.
abbrev once : List String → List String
once [] = []
once (x ∷ xs) = let rest = once xs in if one_of x rest then rest else x ∷ rest

one_of-once : (s : String) (xs : List String) → one_of s (once xs) ≡ one_of s xs
one_of-once s [] = refl
one_of-once s (x ∷ xs) = ground (arith, eq_iff s x, one_of-once s xs)

-- JSON values as texts.
abbrev texts : Json String
texts = record { null = "null"; same = λ a b. a == b; through = once }

abbrev texts-IsPython : IsPython texts
texts-IsPython = record { same-null = refl; one_of-through = one_of-once }

abbrev holding : String → Snapshot String
holding quantity = record {
  fields = ("balances", "100") ∷ [];
  position_details = ("BTC/USD", ("quantity", quantity) ∷ ("avg_entry", "90") ∷ []) ∷ [];
}

abbrev service : Service (Rows Reconciliation)
service = record { store = []; last = none }

-- A quantity that differs stops live orders.
drift_example :
    (compare memory_store texts (holding "2") (some (holding "3")) none "09:00" service).0.drifts
    ≡ "position_qty:BTC/USD" ∷ []
unfolding compare judged persist field_drifts position_drifts get
drift_example = refl

compare_allows_example :
    let (result, s') =
      compare memory_store texts (holding "2") (some (holding "2")) (some "") "09:00" service in
    (result.allows_new_live_orders ≡ true ↔ (
      (truthy (some "") ≡ none)
      × ((there : Snapshot String) × (some (holding "2") ≡ some there)
          × IsAgreed texts (holding "2") there)))
    × (status memory_store s' ≡ ok result)
compare_allows_example =
    compare_allows texts texts-IsPython memory_store (holding "2") (some (holding "2")) (some "")
      "09:00" service
