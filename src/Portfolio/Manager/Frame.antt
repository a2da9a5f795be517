-- ===== src/Portfolio/Manager/Frame.antt =====
-- The positions that a call touches, and a trade that is opened and closed.
use crypto_trading_mcp.Prelude.{
  String, Bool, ◌∙◌, ◌≡◌, ◌⊎◌, Bool-cases, refl, true, false, Option, none, some, ◌==◌, ◌||◌, arith,
  Option-cases, get_or, inl, inr,
}
use text.Mathlib.TextPositions.{eq_refl}
use crypto_trading_mcp.Dict.{get, remove, get-put, get-put_self, remove-put_new, get-remove}
use crypto_trading_mcp.Errors.{PyError, Result, ok, err, Result-cases}
use crypto_trading_mcp.Float.{Float, ◌⊕◌, ◌⊖◌, ◌⊗◌, ◌<=◌, ◌<<◌, nought}
use crypto_trading_mcp.Portfolio.Manager.{
  PortfolioManager, Position, Tags, open_position, close_position, close_found, settle, book,
  booked, reduced, store, gain, new_position,
}

not_or_left : (a b : Bool) → (a || b) ≡ false → a ≡ false
not_or_left a b h = ground arith

module _ {W : Type 0} ⦃f : Float W⦄ where
  book_frame :
      (r : Result (Position W)) (symbol j now : String) (m : PortfolioManager W)
      → (symbol == j) ≡ false
      → get j (book r symbol now m).1.positions ≡ get j m.positions
  unfolding book
  book_frame (err e) symbol j now m h = refl
  book_frame (ok p) symbol j now m h = ground (arith, get-put j symbol p m.positions)

  -- `open_position` touches no other symbol, whether it returns or raises.
  open_position_frame :
      (symbol j side : String) (quantity price fee : W) (tags : Tags W) (now : String)
      (m : PortfolioManager W)
      → (symbol == j) ≡ false
      → get j (open_position symbol side quantity price fee tags now m).1.positions
        ≡ get j m.positions
  unfolding open_position
  open_position_frame symbol j side quantity price fee tags now m h =
      elim (Result-cases (settle side (quantity ⊗ price) fee m)) [
        | inl (cash, e) ↦ ground (
          arith,
          book_frame (booked (get symbol m.positions) symbol side quantity price fee tags now)
              symbol j now (record m { cash = cash; fees_paid = m.fees_paid ⊕ fee }) h,
        )
        | inr (_, e) ↦ ground arith
      ]

  store_frame :
      (symbol j : String) (p : Option (Position W)) (m : PortfolioManager W)
      → (symbol == j) ≡ false
      → get j (store symbol p m.positions) ≡ get j m.positions
  unfolding store
  store_frame symbol j none m h = ground (arith, get-remove j symbol m.positions)
  store_frame symbol j (some p) m h = ground (arith, get-put j symbol p m.positions)

  close_found_frame :
      (p : Position W) (symbol j : String) (qty price fee : W) (now : String)
      (m : PortfolioManager W)
      → (symbol == j) ≡ false
      → get j (close_found p symbol qty price fee now m).1.positions ≡ get j m.positions
  unfolding close_found
  close_found_frame p symbol j qty price fee now m h =
      ground (arith, store_frame symbol j (reduced qty price fee (gain qty price fee p) p) m h)

  -- `close_position` touches no other symbol, whether it returns or raises.
  close_position_frame :
      (symbol j : String) (quantity : Option W) (price fee : W) (now : String)
      (m : PortfolioManager W)
      → (symbol == j) ≡ false
      → get j (close_position symbol quantity price fee now m).1.positions ≡ get j m.positions
  unfolding close_position
  close_position_frame symbol j quantity price fee now m h =
      elim (Option-cases (get symbol m.positions)) [
        | inl e ↦ rw (e, close_position)
        | inr (p, e) ↦
            rw (e, close_position)
              (close_found_frame p symbol j (get_or quantity p.quantity) price fee now m h)
      ]

  -- What a closed position leaves at its symbol.
  store_self :
      (symbol : String) (p : Option (Position W)) (m : PortfolioManager W)
      → get symbol (store symbol p m.positions) ≡ p
  unfolding store
  store_self symbol none m = simp (get-remove, eq_refl)
  store_self symbol (some p) m = simp (get-put, eq_refl)

  -- A close of the whole position, at a positive quantity whose difference with itself is nothing,
  -- succeeds with the gain of that position and deletes it.
  close_position_all :
      (symbol : String) (price fee : W) (now : String) (m : PortfolioManager W) (p : Position W)
      → get symbol m.positions ≡ some p
      → (p.quantity <= nought) ≡ false
      → (p.quantity ⊕ f.dec 1 12 << p.quantity) ≡ false
      → (f.abs (p.quantity ⊖ p.quantity) << f.dec 1 12) ≡ true
      → ((close_position symbol none price fee now m).0 ≡ ok (gain p.quantity price fee p))
        × (get symbol (close_position symbol none price fee now m).1.positions ≡ none)
  unfolding close_position close_found reduced
  close_position_all symbol price fee now m p g h k l =
      rw (g, close_position) (rw (h, k, l) (refl, store_self symbol none m))

  close_all_positions :
      (symbol : String) (price fee : W) (now : String) (m : PortfolioManager W) (p : Position W)
      → get symbol m.positions ≡ some p
      → (p.quantity <= nought) ≡ false
      → (p.quantity ⊕ f.dec 1 12 << p.quantity) ≡ false
      → (f.abs (p.quantity ⊖ p.quantity) << f.dec 1 12) ≡ true
      → (close_position symbol none price fee now m).1.positions ≡ remove symbol m.positions
  unfolding close_position close_found reduced store
  close_all_positions symbol price fee now m p g h k l = rw (g, close_position) (rw (h, k, l))

  -- A close of the whole position, where its quantity is finite: it deletes the position, or raises
  -- and changes nothing.
  pub close_position_whole :
      (symbol : String) (price fee : W) (now : String) (m : PortfolioManager W)
      → ((p : Position W)
          → get symbol m.positions ≡ some p
          → (f.abs (p.quantity ⊖ p.quantity) << f.dec 1 12) ≡ true)
      → let (r, m') = close_position symbol none price fee now m in
        ((pnl : W) × (r ≡ ok pnl) × (m'.positions ≡ remove symbol m.positions))
        ⊎ ((e : PyError) × (r ≡ err e) × (m' ≡ m))
  unfolding close_position close_found reduced store
  close_position_whole symbol price fee now m finite =
      elim (Option-cases (get symbol m.positions)) [
        | inl e ↦ rw (e, close_position) (inr (_, refl, refl))
        | inr (p, e) ↦
            elim (Bool-cases ((p.quantity <= nought) || (p.quantity ⊕ f.dec 1 12 << p.quantity))) [
              | inl refused ↦ rw (e, close_position) (rw refused (inr (_, refl, refl)))
              | inr good ↦ rw (e, close_position) (rw good (rw (finite p e) (inl (_, refl, refl))))
            ]
      ]

  -- A request on a symbol with no position that opens it, closed again as a whole, leaves the dict
  -- of positions exactly as it was, where its quantity, taken from itself, is close to zero (that is,
  -- finite) and not above itself by more than the tolerance.
  pub close-open_position :
      (symbol side : String) (quantity price exit fee exit_fee : W) (tags : Tags W)
      (now later : String) (m : PortfolioManager W) {cash : W}
      → get symbol m.positions ≡ none
      → ((quantity <= nought) || (price <= nought)) ≡ false
      → settle side (quantity ⊗ price) fee m ≡ ok cash
      → (quantity ⊕ f.dec 1 12 << quantity) ≡ false
      → (f.abs (quantity ⊖ quantity) << f.dec 1 12) ≡ true
      → (close_position symbol none exit exit_fee later
          (open_position symbol side quantity price fee tags now m).1).1.positions
        ≡ m.positions
  unfolding open_position book booked new_position
  close-open_position symbol side quantity price exit fee exit_fee tags now later m {cash} g h k l
        n =
      let m1 = record m { cash = cash; fees_paid = m.fees_paid ⊕ fee } in
      let p0 = new_position symbol side quantity price fee tags now in
      let opened : open_position symbol side quantity price fee tags now m
          ≡ book (ok p0) symbol now m1 =
        rw (h, open_position) (rw k (rw (g, booked))) in
      rw opened (
        close_all_positions symbol exit exit_fee later (book (ok p0) symbol now m1).1 p0
          (get-put_self symbol p0 m.positions) (not_or_left _ _ h) l n
        ∙ remove-put_new symbol p0 m.positions g)
