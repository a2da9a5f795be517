-- ===== src/Reconciliation/Service/Agreement.antt =====
-- Live orders are let through exactly when the snapshots agree.
use Prim.Native.String.{◌++◌ as join}
use crypto_trading_mcp.Prelude.{
  Bool-cases, inl, inr, ◌≡◌, ◌↔◌, refl, sym, ◌∙◌, ap, String, Bool, true, false, ◌||◌, not, ◌==◌,
  eq_iff, Option, none, some, List, [], ◌∷◌, ◌++◌, map, non_empty, get_or, if◌then◌else◌, one_of,
  arith,
}
use crypto_trading_mcp.Dict.{Dict, get}
use crypto_trading_mcp.Errors.{ok}
use crypto_trading_mcp.Persistence.{DurableStore}
use crypto_trading_mcp.Exchange.Ids.{truthy}
use crypto_trading_mcp.Reconciliation.Service.{
  Json, Snapshot, Reconciliation, compared_fields, value, field_drifts, detail, position_drifts,
  drifts_of, judged, Service, persist, compare, status, latest_or, latest_or,
}

module _ {J : Type 0} (json : Json J) where
  open json use {null, same, through}

  -- What the service takes from Python: `None == None`, and a set has the elements it is made of.
  pub record IsPython : Type 0 where
    pub same-null : same null null ≡ true
    pub one_of-through : (s : String) (l : List String) → one_of s (through l) ≡ one_of s l

  -- The two snapshots say the same of every compared field, and of the quantity and the average
  -- entry of every symbol.
  pub record IsAgreed (local exchange : Snapshot J) : Type 0 where
    pub fields :
        (k : String)
        → one_of k compared_fields ≡ true
        → same (value json k local.fields) (value json k exchange.fields) ≡ true
    pub quantities :
        (s : String)
        → same
            (detail json "quantity" s local.position_details)
            (detail json "quantity" s exchange.position_details)
          ≡ true
    pub entries :
        (s : String)
        → same
            (detail json "avg_entry" s local.position_details)
            (detail json "avg_entry" s exchange.position_details)
          ≡ true

  non_empty-append :
      {A : Type 0} (xs ys : List A) → non_empty (xs ++ ys) ≡ (non_empty xs || non_empty ys)
  non_empty-append [] ys = refl
  non_empty-append (x ∷ xs) ys = refl

  one_of-append :
      (s : String) (xs ys : List String) → one_of s (xs ++ ys) ≡ (one_of s xs || one_of s ys)
  one_of-append s [] ys = refl
  one_of-append s (x ∷ xs) ys = ground (arith, one_of-append s xs ys)

  module _ (py : IsPython) where
    -- A field that is in neither snapshot is `None` in both.
    field_drifts-agreed :
        (ks : List String) (local exchange : Dict J) (k : String)
        → non_empty (field_drifts json ks local exchange) ≡ false
        → one_of k ks ≡ true
        → same (value json k local) (value json k exchange) ≡ true
    unfolding field_drifts
    field_drifts-agreed [] local exchange k h m = ground arith
    field_drifts-agreed (j ∷ ks) local exchange k h m =
        ground (arith, eq_iff k j, py.same-null, field_drifts-agreed ks local exchange k)

    agreed-field_drifts :
        (ks : List String) (local exchange : Dict J)
        → ((k : String)
            → one_of k ks ≡ true
            → same (value json k local) (value json k exchange) ≡ true)
        → non_empty (field_drifts json ks local exchange) ≡ false
    unfolding field_drifts
    agreed-field_drifts [] local exchange h = refl
    agreed-field_drifts (j ∷ ks) local exchange h =
        ground (
          arith,
          eq_iff j j,
          h j,
          agreed-field_drifts ks local exchange (λ k m. h k (ground arith)),
        )

    -- The symbols that are gone through agree.
    position_drifts-agreed :
        (ss : List String) (local exchange : Dict (Dict J)) (s : String)
        → non_empty (position_drifts json ss local exchange) ≡ false
        → one_of s ss ≡ true
        → (same (detail json "quantity" s local) (detail json "quantity" s exchange) ≡ true)
          × (same (detail json "avg_entry" s local) (detail json "avg_entry" s exchange) ≡ true)
    unfolding position_drifts
    position_drifts-agreed [] local exchange s h m = ground arith
    position_drifts-agreed (t ∷ ss) local exchange s h m =
        by_symbol (same (detail json "quantity" t local) (detail json "quantity" t exchange))
          (same (detail json "avg_entry" t local) (detail json "avg_entry" t exchange)) refl refl h
          (position_drifts-agreed ss local exchange s)
      where
        by_symbol :
            (q a : Bool)
            → same (detail json "quantity" t local) (detail json "quantity" t exchange) ≡ q
            → same (detail json "avg_entry" t local) (detail json "avg_entry" t exchange) ≡ a
            → non_empty (
                (if q then [] else join "position_qty:" t ∷ [])
                ++ (if a then [] else join "avg_entry:" t ∷ [])
                ++ position_drifts json ss local exchange)
              ≡ false
            → (non_empty (position_drifts json ss local exchange) ≡ false
                → one_of s ss ≡ true
                → (same (detail json "quantity" s local) (detail json "quantity" s exchange) ≡ true)
                  × (same (detail json "avg_entry" s local) (detail json "avg_entry" s exchange)
                      ≡ true))
            → (same (detail json "quantity" s local) (detail json "quantity" s exchange) ≡ true)
              × (same (detail json "avg_entry" s local) (detail json "avg_entry" s exchange) ≡ true)
        by_symbol false a hq ha k rest = ground arith
        by_symbol true false hq ha k rest = ground arith
        by_symbol true true hq ha k rest = elim (Bool-cases (s == t)) [
          | inl e ↦ rw ((eq_iff s t).0 e) (hq, ha)
          | inr e ↦ rest k (rw (sym m) (ap (λ b. b || one_of s ss) (sym e)))
        ]

    agreed-position_drifts :
        (ss : List String) (local exchange : Dict (Dict J))
        → ((s : String)
            → same (detail json "quantity" s local) (detail json "quantity" s exchange) ≡ true)
        → ((s : String)
            → same (detail json "avg_entry" s local) (detail json "avg_entry" s exchange) ≡ true)
        → non_empty (position_drifts json ss local exchange) ≡ false
    unfolding position_drifts
    agreed-position_drifts [] local exchange h k = refl
    agreed-position_drifts (t ∷ ss) local exchange h k =
        rw (h t, k t) (agreed-position_drifts ss local exchange h k)

    -- A symbol that is gone through in neither dict is missing.
    missing :
        {V : Type 0} (s : String) (d : Dict V)
        → one_of s (map (λ kv. kv.0) d) ≡ false
        → get s d ≡ none
    unfolding get
    missing s [] h = refl
    missing s ((k, v) ∷ d) h = ground (arith, eq_iff s k, eq_iff k s, missing s d)

    -- A symbol in neither dict has the same details in both.
    detail-missing :
        (k s : String) (local exchange : Dict (Dict J))
        → one_of s (map (λ kv. kv.0) local ++ map (λ kv. kv.0) exchange) ≡ false
        → same (detail json k s local) (detail json k s exchange) ≡ true
    unfolding get
    detail-missing k s local exchange h =
        let both = sym (one_of-append s (map (λ kv. kv.0) local) (map (λ kv. kv.0) exchange)) ∙ h in
        rw (missing s local (ground arith), missing s exchange (ground arith)) py.same-null

    detail-agreed :
        (local exchange : Dict (Dict J)) (s : String)
        → non_empty (
            position_drifts json
              (through (map (λ kv. kv.0) local ++ map (λ kv. kv.0) exchange))
              local
              exchange)
          ≡ false
        → (same (detail json "quantity" s local) (detail json "quantity" s exchange) ≡ true)
          × (same (detail json "avg_entry" s local) (detail json "avg_entry" s exchange) ≡ true)
    detail-agreed local exchange s h =
        let names = map (λ kv. kv.0) local ++ map (λ kv. kv.0) exchange in
        elim (Bool-cases (one_of s names)) [
          | inl e ↦
              position_drifts-agreed (through names) local exchange s h
                (py.one_of-through s names ∙ e)
          | inr e ↦ (
            detail-missing "quantity" s local exchange e,
            detail-missing "avg_entry" s local exchange e,
          )
        ]

    drifts_of-IsAgreed :
        (local exchange : Snapshot J)
        → non_empty (drifts_of json local exchange) ≡ false ↔ IsAgreed local exchange
    drifts_of-IsAgreed local exchange =
        let names =
          map (λ kv. kv.0) local.position_details ++ map (λ kv. kv.0) exchange.position_details in
        let split =
          non_empty-append (field_drifts json compared_fields local.fields exchange.fields) (
            position_drifts json (through names) local.position_details
              exchange.position_details) in
        (
          λ h. record {
            fields = λ k.
                field_drifts-agreed compared_fields local.fields exchange.fields k (ground arith);
            quantities = λ s.
                (detail-agreed local.position_details exchange.position_details s (ground arith)).0;
            entries = λ s.
                (detail-agreed local.position_details exchange.position_details s (ground arith)).1;
          },
          λ a.
              split
              ∙ rw
                  (
                    agreed-field_drifts compared_fields local.fields exchange.fields a.fields,
                    agreed-position_drifts (through names) local.position_details
                        exchange.position_details a.quantities a.entries,
                  )
                  refl,
        )

    judged-IsAgreed :
        (local : Snapshot J) (exchange : Option (Snapshot J)) (error : Option String) (now : String)
        → (judged json local exchange error now).allows_new_live_orders ≡ true ↔ (
            (error ≡ none)
            × ((there : Snapshot J) × (exchange ≡ some there) × IsAgreed local there))
    unfolding judged
    judged-IsAgreed local exchange (some e) now = (λ h. ground arith, λ h. ground arith)
    judged-IsAgreed local none none now = (λ h. ground arith, λ h. ground arith)
    judged-IsAgreed local (some there) none now = (
      λ h. (refl, (there, refl, (drifts_of-IsAgreed local there).0 (ground arith))),
      λ (e, (other, same, agreed)).
          ap not ((drifts_of-IsAgreed local there).1 (rw (ap (λ o. get_or o there) same) agreed)),
    )

  -- What `compare` reports is what `status` reads.
  status-compare :
      {S : Type 0} (d : DurableStore S Reconciliation) (local : Snapshot J)
      (exchange : Option (Snapshot J)) (exchange_error : Option String) (now : String)
      (s : Service S)
      → let (result, s') = compare d json local exchange exchange_error now s in
        status d s' ≡ ok result
  unfolding compare persist status
  status-compare d local exchange exchange_error now s =
      let result = judged json local exchange (truthy exchange_error) now in
      ap (latest_or (some result)) (
        d.get-put "reconciliation" "latest" "reconciliation" "latest" result
          (d.put_json "reconciliation" result.timestamp result s.store))

  -- Live orders are let through exactly when there is no error of the venue, its snapshot is
  -- there, and the two snapshots say the same of every compared field and of the quantity and the
  -- average entry of every symbol; and `status` then reports just that result.
  pub compare_allows :
      {S : Type 0} (py : IsPython) (d : DurableStore S Reconciliation) (local : Snapshot J)
      (exchange : Option (Snapshot J)) (exchange_error : Option String) (now : String)
      (s : Service S)
      → let (result, s') = compare d json local exchange exchange_error now s in
        (result.allows_new_live_orders ≡ true ↔ (
          (truthy exchange_error ≡ none)
          × ((there : Snapshot J) × (exchange ≡ some there) × IsAgreed local there)))
        × (status d s' ≡ ok result)
  unfolding compare persist
  compare_allows py d local exchange exchange_error now s = (
    judged-IsAgreed py local exchange (truthy exchange_error) now,
    status-compare d local exchange exchange_error now s,
  )
