-- ===== src/Orders/Ledger/Redaction.antt =====
-- What the redaction of the metadata of an intent does, entry by entry.
use crypto_trading_mcp.Prelude.{
  ◌≡◌, sym, ◌∙◌, String, Bool, true, false, ◌||◌, List, [], ◌∷◌, map, Bool-cases, inl, inr, arith,
  if◌then◌else◌,
}
use crypto_trading_mcp.Text.{lower, is_within}
use crypto_trading_mcp.Orders.Ledger.{is_secret}

-- The key of a secret, by its name in lower case.
abbrev pub names_secret : String → Bool
names_secret k =
    is_within "secret" (lower k)
    || is_within "api_key" (lower k)
    || is_within "token" (lower k)
    || is_within "password" (lower k)

-- The entries of the metadata, before and after the redaction.
pub data IsRedacted {J : Type 0} (text : String → J)
    : List (String × J) → List (String × J) → Type 0 where
  nothing : IsRedacted text [] []
  hidden :
      {k : String} {v : J} {kvs shown : List (String × J)}
      → names_secret k ≡ true
      → IsRedacted text kvs shown
      → IsRedacted text ((k, v) ∷ kvs) ((k, text "[REDACTED]") ∷ shown)
  unchanged :
      {k : String} {v : J} {kvs shown : List (String × J)}
      → names_secret k ≡ false
      → IsRedacted text kvs shown
      → IsRedacted text ((k, v) ∷ kvs) ((k, v) ∷ shown)

or_false : (a b c d : Bool) → (a || (b || (c || (d || false)))) ≡ (a || b || c || d)
or_false a b c d = ground arith

is_secret-names_secret : (k : String) → is_secret k ≡ names_secret k
unfolding is_secret
is_secret-names_secret k =
    or_false (is_within "secret" (lower k)) (is_within "api_key" (lower k))
      (is_within "token" (lower k)) (is_within "password" (lower k))

pub redacted_lem :
    {J : Type 0} (text : String → J) (kvs : List (String × J))
    → IsRedacted text kvs
        (map (λ kv. (kv.0, if is_secret kv.0 then text "[REDACTED]" else kv.1)) kvs)
redacted_lem text [] = nothing
redacted_lem text ((k, v) ∷ kvs) = elim (Bool-cases (is_secret k)) [
  | inl h ↦ rw h (hidden (sym (is_secret-names_secret k) ∙ h) (redacted_lem text kvs))
  | inr h ↦ rw h (unchanged (sym (is_secret-names_secret k) ∙ h) (redacted_lem text kvs))
]
