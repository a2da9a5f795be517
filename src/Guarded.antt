-- ===== src/Guarded.antt =====
-- A chain of `if c: reasons.append(code)` as a list of guards with their codes.
use crypto_trading_mcp.Prelude.{
  ◌≡◌, refl, ◌↔◌, Bool, true, false, List, [], ◌∷◌, ◌++◌, All, all, non_empty, arith, if◌then◌else◌,
}

abbrev pub Guarded : Type 0 → Type 0
Guarded C = List (Bool × C)

module _ {C : Type 0} where
  -- The codes that the chain appends, in its order.
  unfoldable pub fired : Guarded C → List C
  fired [] = []
  fired ((c, code) ∷ gs) = if c then code ∷ fired gs else fired gs

  -- No guard fires.
  abbrev pub Quiet : Guarded C → Type 0
  Quiet = All (λ g. g.0 ≡ false)

  pub fired-Quiet : (gs : Guarded C) → non_empty (fired gs) ≡ false → Quiet gs
  unfolding fired
  fired-Quiet [] h = tt
  fired-Quiet (g ∷ gs) h = ground (arith, fired-Quiet gs)

  pub Quiet-fired : (gs : Guarded C) → Quiet gs → non_empty (fired gs) ≡ false
  unfolding fired
  Quiet-fired [] q = refl
  Quiet-fired (g ∷ gs) q = ground (arith, Quiet-fired gs q.1)

  pub Quiet-append : (gs hs : Guarded C) → Quiet (gs ++ hs) ↔ (Quiet gs × Quiet hs)
  Quiet-append [] hs = (λ q. (tt, q), λ q. q.1)
  Quiet-append (g ∷ gs) hs = (
    λ q. let (a, b) = (Quiet-append gs hs).0 q.1 in ((q.0, a), b),
    λ q. (q.0.0, (Quiet-append gs hs).1 (q.0.1, q.1)),
  )

  -- What holds of the code of every guard holds of every code that is appended.
  pub all-fired :
      (p : C → Bool) (gs : Guarded C) → all (λ g. p g.1) gs ≡ true → all p (fired gs) ≡ true
  unfolding fired
  all-fired p [] h = refl
  all-fired p (g ∷ gs) h = ground (arith, all-fired p gs)

pub all-append :
    {A : Type 0} (p : A → Bool) (xs ys : List A)
    → all p xs ≡ true
    → all p ys ≡ true
    → all p (xs ++ ys) ≡ true
all-append p [] ys h k = k
all-append p (x ∷ xs) ys h k = ground (arith, all-append p xs ys)
