-- ===== src/Portfolio/Manager/Snapshot.antt =====
-- What `snapshot` reports and what it changes.
use crypto_trading_mcp.Prelude.{
  String, ◌≡◌, refl, true, Option, none, some, [], ◌∷◌, arith, Option-cases, inl, inr,
}
use crypto_trading_mcp.Dict.{Dict, get}
use crypto_trading_mcp.Float.{Float, ◌⊖◌, ◌⊘◌, ◌<=◌, nought, maximum}
use crypto_trading_mcp.Float.Laws.{IsOrdered, IsMonotone, le-maximum_left, le-maximum_right}
use crypto_trading_mcp.Portfolio.Manager.{
  PortfolioManager, Position, snapshot, mark, mark_all, drawdown, marked,
}

-- What a position is, without what `mark` computes from a price.
abbrev pub Holding : Type 0 → Type 0
Holding V = String × V × V × V × V

abbrev pub holding : {W : Type 0} → Position W → Holding W
holding p = (p.side, p.quantity, p.average_entry_price, p.realized_pnl, p.fees)

abbrev pub held : {W : Type 0} → Option (Position W) → Option (Holding W)
held none = none
held (some p) = some (holding p)

module _ {W : Type 0} ⦃f : Float W⦄ where
  get-mark_all :
      (j : String) (marks : Dict W) (ps : Dict (Position W))
      → held (get j (mark_all marks ps)) ≡ held (get j ps)
  unfolding mark_all get mark
  get-mark_all j marks [] = refl
  get-mark_all j marks ((s, p) ∷ ps) = ground (arith, get-mark_all j marks ps)

  marked_idem :
      (marks : Dict W) (s : String) (p : Position W)
      → marked marks s (marked marks s p) ≡ marked marks s p
  unfolding mark
  marked_idem marks s p = elim (Option-cases (get s marks)) [ inl e ↦ rw e | inr (price, e) ↦ rw e ]

  mark_all_idem :
      (marks : Dict W) (ps : Dict (Position W))
      → mark_all marks (mark_all marks ps) ≡ mark_all marks ps
  unfolding mark_all
  mark_all_idem marks [] = refl
  mark_all_idem marks ((s, p) ∷ ps) = cc (marked_idem marks s p, mark_all_idem marks ps)

  -- A snapshot moves no money and changes no holding: the cash, the realized gain, the fees and the
  -- counters stay, and at every symbol the side, the quantity, the entry price and the booked gains
  -- and fees of the position do.
  snapshot-held :
      (marks : Dict W) (m : PortfolioManager W) (j : String)
      → let m' = (snapshot marks m).1 in
        (m'.cash ≡ m.cash)
        × (m'.realized_pnl ≡ m.realized_pnl)
        × (m'.fees_paid ≡ m.fees_paid)
        × (m'.day_start_equity ≡ m.day_start_equity)
        × (m'.trades_today ≡ m.trades_today)
        × (held (get j m'.positions) ≡ held (get j m.positions))
  unfolding snapshot
  snapshot-held marks m j = (refl, refl, refl, refl, refl, get-mark_all j marks m.positions)

  module _ (o : IsOrdered W) where
    maximum_again : (x y : W) → maximum (maximum x y) y ≡ maximum x y
    unfolding maximum
    maximum_again x y = ground (arith, o.lt-eq x y, o.lt-eq y y)

    -- A second snapshot at the same marks reports the same and changes nothing.
    snapshot_idem :
        (marks : Dict W) (m : PortfolioManager W)
        → snapshot marks (snapshot marks m).1 ≡ snapshot marks m
    unfolding snapshot
    snapshot_idem marks m = rw mark_all_idem (rw maximum_again)

    drawdown_nonneg :
        (monotone : IsMonotone W) (peak equity : W) → (nought <= drawdown peak equity) ≡ true
    unfolding drawdown
    drawdown_nonneg monotone peak equity =
        ground (arith, monotone.nought_refl, le-maximum_left o nought ((peak ⊖ equity) ⊘ peak))

    -- The peak of the equity never falls, the equity is not above it, and the drawdown is not
    -- negative, wherever the peak and the equity are numbers.
    pub snapshot_peak :
        (monotone : IsMonotone W) (marks : Dict W) (m : PortfolioManager W)
        → (m.peak_equity <= m.peak_equity) ≡ true
        → ((snapshot marks m).0.equity <= (snapshot marks m).0.equity) ≡ true
        → let (snap, m') = snapshot marks m in
          ((m.peak_equity <= m'.peak_equity) ≡ true)
          × ((snap.equity <= m'.peak_equity) ≡ true)
          × ((nought <= snap.drawdown_pct) ≡ true)
    unfolding snapshot
    snapshot_peak monotone marks m h k =
        (le-maximum_left o _ _ h, le-maximum_right o _ _ h k, drawdown_nonneg monotone _ _)
