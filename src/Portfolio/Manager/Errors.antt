-- ===== src/Portfolio/Manager/Errors.antt =====
-- What a raise of `open_position` and `close_position` leaves behind.
use crypto_trading_mcp.Prelude.{
  String, ◌≡◌, refl, sym, ap, ◌∙◌, ◌⊎◌, inl, inr, Bool-cases, true, false, Option, none, some, ◌==◌,
  ◌||◌, arith, if◌then◌else◌,
}
use crypto_trading_mcp.Text.{upper}
use crypto_trading_mcp.Dict.{get}
use crypto_trading_mcp.Errors.{PyError, Result, ok, err, value_error, zero_division}
use crypto_trading_mcp.Float.{Float, ◌⊕◌, ◌⊖◌, ◌⊗◌, ◌<=◌, ◌>>◌, nought}
use crypto_trading_mcp.Portfolio.Manager.{
  PortfolioManager, Position, Tags, is_long, is_short, open_position, close_position, settle, book,
  booked, grow,
}

module _ {W : Type 0} ⦃f : Float W⦄ where
  -- `close_position` raises before it writes: the portfolio is then as it was.
  pub close_position_error :
      (symbol : String) (quantity : Option W) (price fee : W) (now : String)
      (m : PortfolioManager W) {e : PyError}
      → (close_position symbol quantity price fee now m).0 ≡ err e
      → (close_position symbol quantity price fee now m).1 ≡ m
  unfolding close_position
  close_position_error symbol quantity price fee now m h = ground arith

  -- A raise of `open_position` leaves the positions and the count of trades as they were.
  open_position_error :
      (symbol side : String) (quantity price fee : W) (tags : Tags W) (now : String)
      (m : PortfolioManager W) {e : PyError}
      → (open_position symbol side quantity price fee tags now m).0 ≡ err e
      → ((open_position symbol side quantity price fee tags now m).1.positions ≡ m.positions)
        × ((open_position symbol side quantity price fee tags now m).1.trades_today
            ≡ m.trades_today)
        × ((open_position symbol side quantity price fee tags now m).1.realized_pnl
            ≡ m.realized_pnl)
  unfolding open_position book booked
  open_position_error symbol side quantity price fee tags now m h = ground arith

  -- On a symbol without a position, a raise of `open_position` leaves the whole portfolio as it was.
  pub open_position_new_error :
      (symbol side : String) (quantity price fee : W) (tags : Tags W) (now : String)
      (m : PortfolioManager W) {e : PyError}
      → get symbol m.positions ≡ none
      → (open_position symbol side quantity price fee tags now m).0 ≡ err e
      → (open_position symbol side quantity price fee tags now m).1 ≡ m
  unfolding open_position book booked
  open_position_new_error symbol side quantity price fee tags now m g h = ground arith

  -- On a symbol held on the same side, at quantities that do not add up to zero, too.
  pub open_position_same_error :
      (symbol side : String) (quantity price fee : W) (tags : Tags W) (now : String)
      (m : PortfolioManager W) (p : Position W) {e : PyError}
      → get symbol m.positions ≡ some p
      → (upper p.side == upper side) ≡ true
      → f.same (p.quantity ⊕ quantity) nought ≡ false
      → (open_position symbol side quantity price fee tags now m).0 ≡ err e
      → (open_position symbol side quantity price fee tags now m).1 ≡ m
  unfolding open_position book booked grow
  open_position_same_error symbol side quantity price fee tags now m p g s n h = ground arith

  -- What `open_position` refuses before it writes: a size or a price that is not positive, a buy
  -- that costs more than the cash and a billionth, or a side it does not know.
  pub data IsRefused (m : PortfolioManager W) (side : String) (quantity price fee : W)
      : Type 0 where
    not_positive :
        ((quantity <= nought) || (price <= nought)) ≡ true → IsRefused m side quantity price fee
    unaffordable :
        is_long side ≡ true
        → ((quantity ⊗ price ⊕ fee) >> (m.cash ⊕ f.dec 1 9)) ≡ true
        → IsRefused m side quantity price fee
    unknown_side :
        is_long side ≡ false → is_short side ≡ false → IsRefused m side quantity price fee

  -- What it finds only when the cash and the fees are written: a position on another side, or one
  -- whose quantity the request brings to zero.
  pub data IsLate (p : Position W) (side : String) (quantity : W) : PyError → Type 0 where
    other_side : (upper p.side == upper side) ≡ false → IsLate p side quantity value_error
    no_total :
        (upper p.side == upper side) ≡ true
        → f.same (p.quantity ⊕ quantity) nought ≡ true
        → IsLate p side quantity zero_division

  -- The cash after the money of a request has moved.
  abbrev pub moved_cash : String → W → W → W → PortfolioManager W → W
  moved_cash side quantity price fee m =
      if is_long side then m.cash ⊖ (quantity ⊗ price ⊕ fee) else m.cash ⊕ (quantity ⊗ price ⊖ fee)

  settle_error :
      (side : String) (quantity price fee : W) (m : PortfolioManager W) {e : PyError}
      → settle side (quantity ⊗ price) fee m ≡ err e
      → (e ≡ value_error) × IsRefused m side quantity price fee
  unfolding settle
  settle_error side quantity price fee m h = elim (Bool-cases (is_long side)) [
    | inl long ↦ elim (Bool-cases ((quantity ⊗ price ⊕ fee) >> (m.cash ⊕ f.dec 1 9))) [
      | inl dear ↦ (let same = rw (long, dear) at h in cc, unaffordable long dear)
      | inr cheap ↦ cc (rw (long, cheap) at h)
    ]
    | inr other ↦ elim (Bool-cases (is_short side)) [
      | inl short ↦ cc (rw (other, short) at h)
      | inr neither ↦ (let same = rw (other, neither) at h in cc, unknown_side other neither)
    ]
  ]

  settle_cash :
      (side : String) (quantity price fee : W) (m : PortfolioManager W) {cash : W}
      → settle side (quantity ⊗ price) fee m ≡ ok cash
      → cash ≡ moved_cash side quantity price fee m
  unfolding settle
  settle_cash side quantity price fee m h = ground arith

  booked_error :
      (held : Option (Position W)) (symbol side : String) (quantity price fee : W) (tags : Tags W)
      (now : String) {e : PyError}
      → booked held symbol side quantity price fee tags now ≡ err e
      → (p : Position W) × (held ≡ some p) × IsLate p side quantity e
  unfolding booked grow
  booked_error none symbol side quantity price fee tags now h = cc
  booked_error (some p) symbol side quantity price fee tags now {e} h =
      elim (Bool-cases (upper p.side == upper side)) [
        | inl same ↦ elim (Bool-cases (f.same (p.quantity ⊕ quantity) nought)) [
          | inl zero ↦
              let raised : zero_division ≡ e = (let k = rw (same, zero) at h in cc) in
              (p, refl, rw⁻¹ raised (no_total same zero))
          | inr total ↦ cc (rw (same, total) at h)
        ]
        | inr other ↦
            let raised : value_error ≡ e = (let k = rw other at h in cc) in
            (p, refl, rw⁻¹ raised (other_side other))
      ]

  book_error :
      (r : Result (Position W)) (symbol now : String) (m : PortfolioManager W) {e : PyError}
      → (book r symbol now m).0 ≡ err e
      → (r ≡ err e) × ((book r symbol now m).1 ≡ m)
  unfolding book
  book_error (ok p) symbol now m h = cc
  book_error (err e') symbol now m h = (let same : e' ≡ _ = cc in ap err same, refl)

  -- What a raise of `open_position` leaves of `m`.
  abbrev pub IsRaise :
      String → String → W → W → W → PortfolioManager W → PyError → PortfolioManager W → Type 0
  IsRaise symbol side quantity price fee m e m' =
      ((e ≡ value_error) × IsRefused m side quantity price fee × (m' ≡ m))
      ⊎ ((p : Position W) × (get symbol m.positions ≡ some p)
          × IsLate p side quantity e
          × (m' ≡ record m {
            cash = moved_cash side quantity price fee m;
            fees_paid = m.fees_paid ⊕ fee;
          }))

  settled-IsRaise :
      (symbol side : String) (quantity price fee : W) (tags : Tags W) (now : String)
      (m : PortfolioManager W) {e : PyError} (r : Result W)
      → settle side (quantity ⊗ price) fee m ≡ r
      → let done = elim r as (λ r. Result (Position W) × PortfolioManager W) [
        | err e ↦ (err e, m)
        | ok cash ↦
            book
              (booked (get symbol m.positions) symbol side quantity price fee tags now)
              symbol
              now
              (record m { cash = cash; fees_paid = m.fees_paid ⊕ fee })
      ] in
        done.0 ≡ err e → IsRaise symbol side quantity price fee m e done.1
  settled-IsRaise symbol side quantity price fee tags now m {e} (err e') k h =
      let (kind, refused) = settle_error side quantity price fee m k in
      let same : e' ≡ e = cc in inl (sym same ∙ kind, refused, refl)
  settled-IsRaise symbol side quantity price fee tags now m (ok cash) k h =
      let (raised, kept) = book_error _ symbol now _ h in
      let (p, held, late) = booked_error _ symbol side quantity price fee tags now raised in
      let paid = settle_cash side quantity price fee m k in
      inr
        (p, held, late, kept ∙ ap (λ c. record m { cash = c; fees_paid = m.fees_paid ⊕ fee }) paid)

  -- A raise of `open_position` is one of these, with every error of the method among them. Either it
  -- is a ValueError about the sizes, the cash or the side, and the portfolio is as it was. Or the
  -- symbol is held on another side (a ValueError), or at a quantity that the request brings to zero
  -- (a ZeroDivisionError), and then the cash has moved and the fee is booked, and nothing else.
  pub open_position_errors :
      (symbol side : String) (quantity price fee : W) (tags : Tags W) (now : String)
      (m : PortfolioManager W) {e : PyError}
      → (open_position symbol side quantity price fee tags now m).0 ≡ err e
      → IsRaise symbol side quantity price fee m e
          (open_position symbol side quantity price fee tags now m).1
  unfolding open_position
  open_position_errors symbol side quantity price fee tags now m {e} h =
      elim (Bool-cases ((quantity <= nought) || (price <= nought))) [
        | inl bad ↦ rw bad (inl (let same = rw bad at h in cc, not_positive bad, refl))
        | inr good ↦
            rw good
              (settled-IsRaise symbol side quantity price fee tags now m _ refl (rw good at h))
      ]
