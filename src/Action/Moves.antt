-- ===== src/Action/Moves.antt =====
-- Relations between the object before a method and after it, whether it returns or raises: one
-- rule for each way to build a method.
use crypto_trading_mcp.Prelude.{
  ◌≡◌, refl, Bool, true, false, Option, none, some, List, [], ◌∷◌, if◌then◌else◌,
}
use crypto_trading_mcp.Errors.{PyError, Result, ok, err}
use crypto_trading_mcp.Action.{Action, pure, raise, gets, or_raise, continue, when, each, ◌>>=◌}

-- A relation that holds over no step and over two steps.
pub record IsFrame {S : Type 0} (R : S → S → Type 0) : Type 0 where
  pub stay : (s : S) → R s s
  pub chain : (s t u : S) → R s t → R t u → R s u

pub record Moves {S A : Type 0} (R : S → S → Type 0) (m : Action S A) : Type 0 where
  pub at : (s : S) → R s (m s).1

-- A method whose branches are written at the object.
pub if_at :
    {S A : Type 0} (R : S → S → Type 0) (s : S) (c : Bool) (r t : Result A × S)
    → R s r.1
    → R s t.1
    → R s (if c then r else t).1
if_at R s true r t h k = h
if_at R s false r t h k = k

module _ {S : Type 0} {R : S → S → Type 0} (frame : IsFrame R) where
  module _ {A : Type 0} where
    pub Moves-pure : (a : A) → Moves R (pure a)
    Moves-pure a = record { at = λ s. frame.stay s }

    pub Moves-raise : (e : PyError) → Moves {A = A} R (raise e)
    Moves-raise e = record { at = λ s. frame.stay s }

    pub Moves-gets : (f : S → A) → Moves R (gets f)
    Moves-gets f = record { at = λ s. frame.stay s }

    pub Moves-or_raise : (o : Option A) (e : PyError) → Moves R (or_raise o e)
    Moves-or_raise none e = record { at = λ s. frame.stay s }
    Moves-or_raise (some a) e = record { at = λ s. frame.stay s }

    pub Moves-if :
        (b : Bool) (m n : Action S A) → Moves R m → Moves R n → Moves R (if b then m else n)
    Moves-if true m n km kn = km
    Moves-if false m n km kn = kn

  continue_at :
      {A B : Type 0} (s : S) (r : Result A × S) (f : A → Action S B)
      → R s r.1
      → ((a : A) → Moves R (f a))
      → R s (continue r f).1
  continue_at s (ok a, t) f h k = frame.chain s t _ h ((k a).at t)
  continue_at s (err e, t) f h k = h

  pub Moves-bind :
      {A B : Type 0} (m : Action S A) (f : A → Action S B)
      → Moves R m
      → ((a : A) → Moves R (f a))
      → Moves R (m >>= f)
  Moves-bind m f km kf = record { at = λ s. continue_at s (m s) f (km.at s) kf }

  pub Moves-when : (c : Bool) (m : Action S (Unit {0})) → Moves R m → Moves R (when c m)
  Moves-when true m k = k
  Moves-when false m k = record { at = λ s. frame.stay s }

  pub Moves-each :
      {A : Type 0} (body : A → Action S (Unit {0})) (xs : List A)
      → ((a : A) → Moves R (body a))
      → Moves R (each body xs)
  unfolding each
  Moves-each body [] k = Moves-pure tt
  Moves-each body (x ∷ xs) k =
      Moves-bind (body x) (λ _. each body xs) (k x) (λ _. Moves-each body xs k)

-- A call whose raise leaves the object as it was, with its result renamed.
pub continue_error :
    {S A B : Type 0} (r : Result A × S) (k : A → B) (s : S) {e : PyError}
    → ((e' : PyError) → r.0 ≡ err e' → r.1 ≡ s)
    → (continue r (λ a t. (ok (k a), t))).0 ≡ err e
    → (continue r (λ a t. (ok (k a), t))).1 ≡ s
continue_error (ok a, t) k s whole h = cc h
continue_error (err e', t) k s whole h = whole e' refl
