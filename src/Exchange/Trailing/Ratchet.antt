-- ===== src/Exchange/Trailing/Ratchet.antt =====
-- A trailing stop never widens the risk unless its rule says so.
use crypto_trading_mcp.Prelude.{
  String, ◌≡◌, refl, Bool, true, false, Option, none, some, List, [], ◌∷◌, arith, if◌then◌else◌,
}
use crypto_trading_mcp.Text.{upper}
use crypto_trading_mcp.Dict.{Dict, get}
use crypto_trading_mcp.Float.{Float, ◌<=◌}
use crypto_trading_mcp.Float.Laws.{IsOrdered, le-maximum_left, minimum-le_left}
use crypto_trading_mcp.Exchange.Trailing.{
  TrailingStopState, is_long, ratchet, candidate, advance, update,
}

-- The rule of a symbol allows its stop to widen.
abbrev pub widens : {W : Type 0} → Dict (TrailingStopState W) → String → Bool
widens states symbol = elim (get (upper symbol) states) [ none ↦ false | some st ↦ st.allow_widen ]

module _ {W : Type 0} ⦃f : Float W⦄ where
  -- The stop after a sequence of prices.
  unfoldable pub trail : Dict (TrailingStopState W) → String → String → List W → Option W → Option W
  trail states symbol side [] stop = stop
  trail states symbol side (p ∷ ps) stop =
      trail states symbol side ps (update states symbol side p stop)

  -- `new` leaves at most the risk of `old`: higher for a long position, lower for a short one.
  abbrev pub is_tighter : String → W → W → Bool
  is_tighter side old new = if is_long (upper side) then old <= new else new <= old

  module _ (o : IsOrdered W) where
    ratchet_tighter :
        (side : String) (s c : W)
        → (s <= s) ≡ true
        → is_tighter side s (ratchet (upper side) (some s) c false) ≡ true
    unfolding ratchet
    ratchet_tighter side s c h = ground (arith, le-maximum_left o s c h, minimum-le_left o s c h)

    update_tighter :
        (states : Dict (TrailingStopState W)) (symbol side : String) (p s : W)
        → widens states symbol ≡ false
        → (s <= s) ≡ true
        → (s' : W) × (update states symbol side p (some s) ≡ some s')
          × (is_tighter side s s' ≡ true)
    unfolding update advance
    update_tighter states symbol side p s n h = advance_tighter (get (upper symbol) states) n
      where
        advance_tighter :
            (rule : Option (TrailingStopState W))
            → elim rule [ none ↦ false | some st ↦ st.allow_widen ] ≡ false
            → (s' : W) × (advance rule (upper side) p (some s) ≡ some s')
              × (is_tighter side s s' ≡ true)
        advance_tighter none k = (s, refl, ground arith)
        advance_tighter (some st) k = moved (candidate st.mode st (upper side) p)
          where
            moved :
                (c : Option W)
                → (s' : W) × (elim c [
                  | none ↦ some s
                  | some d ↦ some (ratchet (upper side) (some s) d st.allow_widen)
                ]
                    ≡ some s')
                  × (is_tighter side s s' ≡ true)
            moved none = (s, refl, ground arith)
            moved (some d) =
                (ratchet (upper side) (some s) d false, rw k, ratchet_tighter side s d h)

    tighter_refl : (side : String) (s t : W) → is_tighter side s t ≡ true → (t <= t) ≡ true
    tighter_refl side s t h = ground (arith, o.refl_of_le s t, o.refl_of_le t s)

    tighter_trans :
        (side : String) (s t u : W)
        → is_tighter side s t ≡ true
        → is_tighter side t u ≡ true
        → is_tighter side s u ≡ true
    tighter_trans side s t u h k = ground (arith, o.le_trans s t u, o.le_trans u t s)

    -- Over any sequence of prices, and under any rule that does not allow widening, the stop of a
    -- long position never falls and the stop of a short one never rises, whatever the prices and
    -- the parameters of the rule are, NaN included; and there is always a stop.
    pub trail_tighter :
        (states : Dict (TrailingStopState W)) (symbol side : String) (prices : List W) (s : W)
        → widens states symbol ≡ false
        → (s <= s) ≡ true
        → (s' : W) × (trail states symbol side prices (some s) ≡ some s')
          × (is_tighter side s s' ≡ true)
    unfolding trail
    trail_tighter states symbol side [] s n h = (s, refl, ground arith)
    trail_tighter states symbol side (p ∷ ps) s n h =
        let (t, e, first) = update_tighter states symbol side p s n h in
        let (u, d, rest) = trail_tighter states symbol side ps t n (tighter_refl side s t first) in
        (u, rw e d, tighter_trans side s t u first rest)
