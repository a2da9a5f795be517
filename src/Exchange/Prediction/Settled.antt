-- ===== src/Exchange/Prediction/Settled.antt =====
-- What `resolve` leaves of a market.
use crypto_trading_mcp.Prelude.{
  ◌≡◌, ◌⊎◌, ◌∙◌, refl, sym, eq_iff, String, Bool, true, false, Option, none, some, List, [], ◌∷◌,
  ◌++◌, ◌==◌, Option-cases, Bool-cases, inl, inr,
}
use text.Mathlib.TextPositions.{eq_refl}
use crypto_trading_mcp.Text.{upper}
use crypto_trading_mcp.Dict.{Dict, get, remove, get-remove}
use crypto_trading_mcp.Errors.{PyError, Result, ok, err}
use crypto_trading_mcp.Action.{continue}
use crypto_trading_mcp.Float.{Float, ◌⊖◌, ◌<<◌, nought}
use crypto_trading_mcp.Portfolio.Manager.{Position, PortfolioManager, close_position}
use crypto_trading_mcp.Portfolio.Manager.Frame.{close_position_whole}
use crypto_trading_mcp.Exchange.Prediction.{
  PredictionContract, PredictionMarketBook, SettlementResult, prediction_settlement_value, settled,
  settle_position, settle_market, settle_all, listed, resolve, decide,
}

module _ {W : Type 0} ⦃f : Float W⦄ where
  -- The quantities are finite: their difference with themselves is nothing.
  abbrev pub IsFinite : Dict (Position W) → Type 0
  IsFinite ps =
      (s : String) (p : Position W)
      → get s ps ≡ some p
      → (f.abs (p.quantity ⊖ p.quantity) << f.dec 1 12) ≡ true

  abbrev held : PredictionMarketBook W → Dict (Position W)
  held b = b.exchange.portfolio.positions

  -- No symbol is opened, and what is held of a symbol stays or goes.
  record Shrinks (ps qs : Dict (Position W)) : Type 0 where
    at : (s : String) → (get s qs ≡ get s ps) ⊎ (get s qs ≡ none)

  Shrinks-trans : (a b c : Dict (Position W)) → Shrinks a b → Shrinks b c → Shrinks a c
  Shrinks-trans a b c h k = record {
    at = λ s. elim (k.at s) [
      | inr gone ↦ inr gone
      | inl same ↦ elim (h.at s) [ inl first ↦ inl (same ∙ first) | inr gone ↦ inr (same ∙ gone) ]
    ];
  }

  Shrinks-IsFinite : (a b : Dict (Position W)) → Shrinks a b → IsFinite a → IsFinite b
  Shrinks-IsFinite a b h k s p e = elim (h.at s) [ inl same ↦ k s p cc | inr gone ↦ cc ]

  Shrinks-none :
      (a b : Dict (Position W)) (s : String) → Shrinks a b → get s a ≡ none → get s b ≡ none
  Shrinks-none a b s h e = elim (h.at s) [ inl same ↦ same ∙ e | inr gone ↦ gone ]

  remove-Shrinks : (s : String) (ps : Dict (Position W)) → Shrinks ps (remove s ps)
  remove-Shrinks s ps = record { at = λ j. by_key j (s == j) refl }
    where
      by_key :
          (j : String) (b : Bool)
          → (s == j) ≡ b
          → (get j (remove s ps) ≡ get j ps) ⊎ (get j (remove s ps) ≡ none)
      by_key j true e = inr (simp (get-remove, e))
      by_key j false e = inl (simp (get-remove, e))

  Shrinks-stay : (a : Dict (Position W)) → Shrinks a a
  Shrinks-stay a = record { at = λ s. inl refl }

  -- What a settlement comes to: the position is gone, or the call raises.
  record Settles (s : String) (ps : Dict (Position W)) {A : Type 0} (r : Result A)
      (qs : Dict (Position W)) : Type 0 where
    shrinks : Shrinks ps qs
    gone : ((e : PyError) × (r ≡ err e)) ⊎ (get s qs ≡ none)

  settled-Settles :
      (symbol winning : String) (c : PredictionContract W) (b : PredictionMarketBook W)
      (r : Result W) (m : PortfolioManager W)
      → ((pnl : W) × (r ≡ ok pnl) × (m.positions ≡ remove symbol (held b)))
        ⊎ ((e : PyError) × (r ≡ err e) × (m ≡ b.exchange.portfolio))
      → let (r', b') = settled symbol winning c b (r, m) in Settles symbol (held b) r' (held b')
  unfolding settled
  settled-Settles symbol winning c b (ok pnl) m (inl (_, _, e)) = record {
    shrinks = rw e (remove-Shrinks symbol (held b));
    gone = inr (rw e (simp (get-remove, eq_refl)));
  }
  settled-Settles symbol winning c b (ok pnl) m (inr (_, e, _)) = cc
  settled-Settles symbol winning c b (err x) m (inl (_, e, _)) = cc
  settled-Settles symbol winning c b (err x) m (inr (_, _, e)) = record {
    shrinks = rw e (Shrinks-stay (held b));
    gone = inl (x, refl);
  }

  settle_position-Settles :
      (symbol winning : String) (c : PredictionContract W) (now : String)
      (b : PredictionMarketBook W)
      → IsFinite (held b)
      → let (r, b') = settle_position symbol winning c now b in Settles symbol (held b) r (held b')
  unfolding settle_position
  settle_position-Settles symbol winning c now b finite =
      let value = prediction_settlement_value c.outcome winning in
      let (r, m) = close_position symbol none value nought now b.exchange.portfolio in
      elim (Option-cases (get symbol (held b))) [
        | inl e ↦ rw e (record { shrinks = Shrinks-stay (held b); gone = inr e })
        | inr (p, e) ↦ rw e (
            settled-Settles symbol winning c b r m (
              close_position_whole symbol value nought now b.exchange.portfolio
                (λ p' e'. finite symbol p' e')))
      ]

  module _ (market_id winning now : String) where
    settle_market-Shrinks :
        (symbol : String) (c : PredictionContract W) (b : PredictionMarketBook W)
        → IsFinite (held b)
        → Shrinks (held b) (held (settle_market market_id winning symbol c now b).1)
    unfolding settle_market
    settle_market-Shrinks symbol c b finite = elim (Bool-cases (c.market_id == market_id)) [
      | inl e ↦
          rw e
            (settle_position-Settles symbol winning c now (decide symbol winning c b)
              finite).shrinks
      | inr e ↦ rw e (Shrinks-stay (held b))
    ]

    settle_market-gone :
        (symbol : String) (c : PredictionContract W) (b : PredictionMarketBook W)
        → IsFinite (held b)
        → (c.market_id == market_id) ≡ true
        → let (r, b') = settle_market market_id winning symbol c now b in
          ((e : PyError) × (r ≡ err e)) ⊎ (get symbol (held b') ≡ none)
    unfolding settle_market
    settle_market-gone symbol c b finite e =
        rw e (settle_position-Settles symbol winning c now (decide symbol winning c b) finite).gone

    -- The state after the rest of the loop.
    after_rest :
        (r : Option (SettlementResult W))
        (q : Result (List (SettlementResult W)) × PredictionMarketBook W)
        → (continue q (λ rs b. (ok (listed r ++ rs), b))).1 ≡ q.1
    after_rest r (ok rs, b) = refl
    after_rest r (err e, b) = refl

    rest_ok :
        (r : Option (SettlementResult W))
        (q : Result (List (SettlementResult W)) × PredictionMarketBook W)
        {rs : List (SettlementResult W)}
        → (continue q (λ rs b. (ok (listed r ++ rs), b))).0 ≡ ok rs
        → (rs' : List (SettlementResult W)) × (q.0 ≡ ok rs')
    rest_ok r (ok rs, b) h = (rs, refl)
    rest_ok r (err e, b) h = cc

    settle_all-Shrinks :
        (ms : Dict (PredictionContract W)) (b : PredictionMarketBook W)
        → IsFinite (held b)
        → Shrinks (held b) (held (settle_all market_id winning now ms b).1)
    unfolding settle_all
    settle_all-Shrinks [] b finite = Shrinks-stay (held b)
    settle_all-Shrinks ((symbol, c) ∷ ms) b finite =
        let (r, b') = settle_market market_id winning symbol c now b in
        by_first (λ b' fin. settle_all-Shrinks ms b' fin) r b'
          (settle_market-Shrinks symbol c b finite)
      where
        by_first :
            ((b' : PredictionMarketBook W)
              → IsFinite (held b')
              → Shrinks (held b') (held (settle_all market_id winning now ms b').1))
            → (r : Result (Option (SettlementResult W))) (b' : PredictionMarketBook W)
            → Shrinks (held b) (held b')
            → Shrinks (held b) (
                held
                  (continue
                    (r, b')
                    (λ r b'.
                      continue
                        (settle_all market_id winning now ms b')
                        (λ rs b''. (ok (listed r ++ rs), b'')))).1)
        by_first later (err e) b' h = h
        by_first later (ok r) b' h = rw (after_rest r (settle_all market_id winning now ms b')) (
            Shrinks-trans (held b) (held b') _ h
              (later b' (Shrinks-IsFinite (held b) (held b') h finite)))

    settle_all-gone :
        (ms : Dict (PredictionContract W)) (b : PredictionMarketBook W) (s : String)
        (c : PredictionContract W) {rs : List (SettlementResult W)}
        → IsFinite (held b)
        → (settle_all market_id winning now ms b).0 ≡ ok rs
        → get s ms ≡ some c
        → (c.market_id == market_id) ≡ true
        → get s (held (settle_all market_id winning now ms b).1) ≡ none
    unfolding settle_all get
    settle_all-gone [] b s c finite h at e = cc
    settle_all-gone ((symbol, c') ∷ ms) b s c {rs} finite h at e =
        let (r, b') = settle_market market_id winning symbol c' now b in
        by_first (λ b' rs' fin k e'. settle_all-gone ms b' s c {rs = rs'} fin k e' e) r b'
          (settle_market-Shrinks symbol c' b finite) (λ k. settle_market-gone symbol c' b finite k)
          h
      where
        by_first :
            ((b' : PredictionMarketBook W) (rs' : List (SettlementResult W))
              → IsFinite (held b')
              → (settle_all market_id winning now ms b').0 ≡ ok rs'
              → get s ms ≡ some c
              → get s (held (settle_all market_id winning now ms b').1) ≡ none)
            → (r : Result (Option (SettlementResult W))) (b' : PredictionMarketBook W)
            → Shrinks (held b) (held b')
            → ((c'.market_id == market_id) ≡ true
                → ((x : PyError) × (r ≡ err x)) ⊎ (get symbol (held b') ≡ none))
            → (continue
                (r, b')
                (λ r b'.
                  continue
                    (settle_all market_id winning now ms b')
                    (λ rs b''. (ok (listed r ++ rs), b'')))).0
              ≡ ok rs
            → get s (
                held
                  (continue
                    (r, b')
                    (λ r b'.
                      continue
                        (settle_all market_id winning now ms b')
                        (λ rs b''. (ok (listed r ++ rs), b'')))).1)
              ≡ none
        by_first later (err x) b' shrinks gone k = cc
        by_first later (ok r) b' shrinks gone k =
            let finite' = Shrinks-IsFinite (held b) (held b') shrinks finite in
            let (rs', k') = rest_ok r (settle_all market_id winning now ms b') k in
            rw (after_rest r (settle_all market_id winning now ms b'))
              (elim (Bool-cases (symbol == s)) [
                | inl same ↦
                    let found : c' ≡ c = let at' = rw same at at in cc in
                    elim (gone (rw found e)) [
                      | inl (x, bad) ↦ cc
                      | inr none_left ↦
                          Shrinks-none (held b') _ s (settle_all-Shrinks ms b' finite')
                            (rw (sym ((eq_iff symbol s).0 same)) none_left)
                    ]
                | inr other ↦ later b' rs' finite' k' (rw other at at)
              ])

  -- Where the quantities are finite: after a resolution that returns, no position is left in a
  -- contract of that market, of either outcome.
  pub resolve-settled :
      (market_id winning_outcome now : String) (b : PredictionMarketBook W) (s : String)
      (c : PredictionContract W) {rs : List (SettlementResult W)}
      → IsFinite b.exchange.portfolio.positions
      → (resolve market_id winning_outcome now b).0 ≡ ok rs
      → get s b.markets ≡ some c
      → (c.market_id == market_id) ≡ true
      → get s (resolve market_id winning_outcome now b).1.exchange.portfolio.positions ≡ none
  unfolding resolve
  resolve-settled market_id winning_outcome now b s c finite h at e =
      settle_all-gone market_id (upper winning_outcome) now b.markets b s c finite h at e
