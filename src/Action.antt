-- ===== src/Action.antt =====
-- Python methods that change their object and may raise. The object comes back after a raise too:
-- what was written before it stays written.
pub mod Moves
use crypto_trading_mcp.Prelude.{Option, none, some, List, [], ◌∷◌, Bool, if◌then◌else◌}
use crypto_trading_mcp.Errors.{PyError, Result, ok, err}

abbrev pub Action : Type 0 → Type 0 → Type 0
Action S A = S → Result A × S

module _ {S A : Type 0} where
  abbrev pub pure : A → Action S A
  pure a s = (ok a, s)

  abbrev pub raise : PyError → Action S A
  raise e s = (err e, s)

  abbrev pub gets : (S → A) → Action S A
  gets f s = (ok (f s), s)

  abbrev pub or_raise : Option A → PyError → Action S A
  or_raise none e = raise e
  or_raise (some a) e = pure a

-- The rest of a method, after a call that returned or raised.
abbrev pub continue : {S A B : Type 0} → Result A × S → (A → Action S B) → Result B × S
continue (ok a, s) f = f a s
continue (err e, s) f = (err e, s)

infixl 5 ◌>>=◌
abbrev pub ◌>>=◌ : {S A B : Type 0} → Action S A → (A → Action S B) → Action S B
(m >>= f) s = continue (m s) f

abbrev pub modify : {S : Type 0} → (S → S) → Action S (Unit {0})
modify f s = (ok tt, f s)

-- `if c: …`
abbrev pub when : {S : Type 0} → Bool → Action S (Unit {0}) → Action S (Unit {0})
when c m = if c then m else pure tt

-- `for x in xs: …`
unfoldable pub each : {S A : Type 0} → (A → Action S (Unit {0})) → List A → Action S (Unit {0})
each body [] = pure tt
each body (x ∷ xs) = body x >>= λ _. each body xs
