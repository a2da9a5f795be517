-- ===== src/Machine.antt =====
-- State machines given by a table of allowed targets, as the program writes them three times: the
-- laws that depend on the table alone, over sequences of transitions.
use crypto_trading_mcp.Prelude.{
  ℕ, refl, ◌+◌, ◌≤◌, ◌≡◌, Bool, true, false, ◌||◌, List, [], ◌∷◌, ◌++◌, arith, ap, ltb, length, all,
  if◌then◌else◌,
}
use crypto_trading_mcp.Errors.{Result, ok, err, value_error, ◌>>=◌}

module _ {S : Type 0} (same : Discrete S) where
  -- `t in states`
  unfoldable pub contains : S → List S → Bool
  contains t [] = false
  contains t (x ∷ xs) = elim (same x t) [ yes e ↦ true | no n ↦ contains t xs ]

  pub all-contains :
      (p : S → Bool) (t : S) (xs : List S) → all p xs ≡ true → contains t xs ≡ true → p t ≡ true
  unfolding contains
  all-contains p t [] h c = cc
  all-contains p t (x ∷ xs) h c =
      elim (same x t) as (λ d. elim d [ yes e ↦ true | no n ↦ contains t xs ] ≡ true → p t ≡ true) [
        | yes e ↦ λ k. ground (arith, ap p e)
        | no n ↦ λ k. ground (arith, all-contains p t xs)
      ]
        c

  pub contains_here : (t : S) (xs : List S) → contains t (t ∷ xs) ≡ true
  unfolding contains
  contains_here t xs =
      elim (same t t) as (λ d. elim d [ yes e ↦ true | no n ↦ contains t xs ] ≡ true) [
        | yes e ↦ refl
        | no n ↦ absurd (n refl)
      ]

  pub contains_there : (t x : S) (xs : List S) → contains t xs ≡ true → contains t (x ∷ xs) ≡ true
  unfolding contains
  contains_there t x xs h = ground arith

  pub contains-append_last : (t : S) (xs : List S) → contains t (xs ++ t ∷ []) ≡ true
  contains-append_last t [] = contains_here t []
  contains-append_last t (x ∷ xs) = contains_there t x (xs ++ t ∷ []) (contains-append_last t xs)

  pub contains-append_left :
      (t : S) (xs ys : List S) → contains t xs ≡ true → contains t (xs ++ ys) ≡ true
  unfolding contains
  contains-append_left t [] ys h = cc
  contains-append_left t (x ∷ xs) ys h = ground (arith, contains-append_left t xs ys)

  pub contains-append_gate :
      (t gate : S) (xs : List S)
      → contains t (gate ∷ []) ≡ true
      → contains gate (xs ++ t ∷ []) ≡ true
  unfolding contains
  contains-append_gate t gate xs h =
      elim (same gate t)
          as (λ d.
            elim d [ yes e ↦ true | no n ↦ false ] ≡ true → contains gate (xs ++ t ∷ []) ≡ true) [
              | yes e ↦ λ k. rw e (contains-append_last t xs)
              | no n ↦ λ k. cc
            ]
        h

  -- A state in the one-element list `gate` is a head that holds `gate`.
  pub contains-single :
      (t gate : S) (xs : List S) → contains t (gate ∷ []) ≡ true → contains gate (t ∷ xs) ≡ true
  unfolding contains
  contains-single t gate xs h =
      elim (same gate t)
          as (λ d. elim d [ yes e ↦ true | no n ↦ false ] ≡ true → contains gate (t ∷ xs) ≡ true) [
            | yes e ↦ λ k. rw e (contains_here t xs)
            | no n ↦ λ k. cc
          ]
        h

module _ {S : Type 0} (same : Discrete S) (table : S → List S) where
  -- `transition(new_state)`: the new state, or the exception.
  unfoldable pub transition : S → S → Result S
  transition s t = if contains same t (table s) then ok t else err value_error

  -- The transitions of a list, one after the other, up to the first exception.
  unfoldable pub run : S → List S → Result S
  run s [] = ok s
  run s (t ∷ ts) = transition s t >>= λ u. run u ts

  -- A set of states that no edge leaves is left by no run.
  pub run_inside :
      (inside : S → Bool)
      → ((s : S) → inside s ≡ true → all inside (table s) ≡ true)
      → (s : S) (ts : List S) {u : S} → inside s ≡ true
      → run s ts ≡ ok u
      → inside u ≡ true
  unfolding run transition
  run_inside inside edges s [] b r = ground arith
  run_inside inside edges s (t ∷ ts) {u} b r = ground (
    arith,
    all-contains same inside t (table s) (edges s b),
    run_inside inside edges t ts {u = u},
  )

  -- If every edge out of a state of `before` leads into `before` or to `gate`, then a run that
  -- leaves `before` has passed `gate`.
  pub run_through_gate :
      (before : S → Bool) (gate : S)
      → ((s : S)
          → before s ≡ true
          → all (λ t. before t || contains same t (gate ∷ [])) (table s) ≡ true)
      → (s : S) (ts : List S) {u : S} → before s ≡ true
      → run s ts ≡ ok u
      → before u ≡ false
      → contains same gate ts ≡ true
  unfolding run transition
  run_through_gate before gate edges s [] b r n = ground arith
  run_through_gate before gate edges s (t ∷ ts) {u} b r n = ground (
    arith,
    all-contains same (λ x. before x || contains same x (gate ∷ [])) t (table s) (edges s b),
    contains-single same t gate ts,
    contains_there same gate t ts,
    run_through_gate before gate edges t ts {u = u},
  )

  -- If every edge raises the rank, a run is no longer than the rise.
  pub run_rank :
      (rank : S → ℕ)
      → ((s : S) → all (λ t. ltb (rank s) (rank t)) (table s) ≡ true)
      → (s : S) (ts : List S) {u : S} → run s ts ≡ ok u
      → rank s + length ts ≤ rank u
  unfolding run transition
  run_rank rank edges s [] r = ground (arith, ap rank)
  run_rank rank edges s (t ∷ ts) {u} r = ground (
    arith,
    all-contains same (λ x. ltb (rank s) (rank x)) t (table s) (edges s),
    run_rank rank edges t ts {u = u},
  )
