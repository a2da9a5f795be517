-- ===== src/Errors.antt =====
-- Python exceptions as values. A pure function that may raise returns a `Result`; a method that
-- changes its object returns the object beside the `Result`, also after a raise, since what was
-- written before it stays written.
use crypto_trading_mcp.Prelude.{◌≡◌, refl, Bool, true, false, ◌⊎◌, inl, inr}

pub data PyError : Type 0 where
  value_error key_error permission_error runtime_error zero_division duplicate_order_error : PyError
  paper_exchange_error stage_promotion_error credential_permission_error index_error : PyError

pub data Result {ℓ} (A : Type ℓ) : Type ℓ where
  ok : A → Result A
  err : PyError → Result A

infixl 5 ◌>>=◌
abbrev pub ◌>>=◌ {ℓ κ} : {A : Type ℓ} {B : Type κ} → Result A → (A → Result B) → Result B
ok a >>= f = f a
err e >>= f = err e

abbrev pub is_ok {ℓ} : {A : Type ℓ} → Result A → Bool
is_ok (ok a) = true
is_ok (err e) = false

pub Result-cases {ℓ} :
    {A : Type ℓ} (r : Result A) → ((a : A) × (r ≡ ok a)) ⊎ ((e : PyError) × (r ≡ err e))
Result-cases (ok a) = inl (a, refl)
Result-cases (err e) = inr (e, refl)
