-- ===== src/Risk/Correlation.antt =====
-- crypto_trading_mcp/risk/correlation.py: `CorrelationFilter`. The powers `x ** 2` and `x ** 0.5` are
-- Python's, and are a parameter.
use Prim.Native.Nat.{min}
use crypto_trading_mcp.Prelude.{
  ℕ, zero, suc, ◌-◌, String, ◌||◌, Option, none, some, List, [], ◌∷◌, ◌++◌, map, length, ltb,
  if◌then◌else◌,
}
use crypto_trading_mcp.Dict.{Dict}
use crypto_trading_mcp.Float.{Float, ◌⊕◌, ◌⊖◌, ◌⊗◌, ◌⊘◌, ◌>=◌, ◌=?◌, nought}

pub record Powers (W : Type 0) : Type 0 where
  pub square : W → W
  pub root : W → W

pub data CorrelationReason (W : Type 0) : Type 0 where
  correlation_limit : CorrelationReason W
  corr : String → W → CorrelationReason W

-- xs[k:]
abbrev pub dropped {ℓ} : {A : Type ℓ} → ℕ → List A → List A
dropped zero xs = xs
dropped (suc k) [] = []
dropped (suc k) (x ∷ xs) = dropped k xs

-- xs[-n:], where n is positive and at most the length
abbrev pub last_of {ℓ} : {A : Type ℓ} → ℕ → List A → List A
last_of n xs = dropped (length xs - n) xs

module _ {W : Type 0} ⦃f : Float W⦄ where
  total : W → List W → W
  total acc [] = acc
  total acc (x ∷ xs) = total (acc ⊕ x) xs

  -- sum(xs) / n
  mean : List W → ℕ → W
  unfolding total
  mean xs n = total nought xs ⊘ f.dec n 0

  -- [(a - mx) * (b - my) for a, b in zip(x, y)]
  products : W → W → List W → List W → List W
  products mx my [] ys = []
  products mx my (x ∷ xs) [] = []
  products mx my (x ∷ xs) (y ∷ ys) = ((x ⊖ mx) ⊗ (y ⊖ my)) ∷ products mx my xs ys

  deviation : Powers W → W → List W → W
  unfolding total
  deviation p m xs = p.root (total nought (map (λ a. p.square (a ⊖ m)) xs))

  -- pearson_correlation
  unfoldable pub pearson_correlation : Powers W → List W → List W → Option W
  unfolding mean total products deviation
  pearson_correlation p xs ys =
      let n = min (length xs) (length ys) in
      let x = last_of n xs in
      let y = last_of n ys in
      let mx = mean x n in
      let my = mean y n in
      let num = total nought (products mx my x y) in
      let denx = deviation p mx x in
      let deny = deviation p my y in
      if ltb n 3
      then none
      else if (denx =? nought) || (deny =? nought)
      then none
      else some (num ⊘ (denx ⊗ deny))

  -- One round of the loop of `evaluate`.
  abbrev pub correlation_reasons : W → String → Option W → List (CorrelationReason W)
  correlation_reasons limit symbol none = []
  correlation_reasons limit symbol (some c) =
      if f.abs c >= limit then correlation_limit ∷ corr symbol c ∷ [] else []

  -- The reasons that CorrelationFilter.evaluate returns; it allows when there is none.
  unfoldable pub evaluate : Powers W → W → List W → Dict (List W) → List (CorrelationReason W)
  evaluate p limit candidate [] = []
  evaluate p limit candidate ((symbol, series) ∷ existing) =
      correlation_reasons limit symbol (pearson_correlation p candidate series)
      ++ evaluate p limit candidate existing
