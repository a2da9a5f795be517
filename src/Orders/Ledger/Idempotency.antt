-- ===== src/Orders/Ledger/Idempotency.antt =====
-- One idempotency key belongs to one intent for good.
use crypto_trading_mcp.Prelude.{
  ◌≡◌, ◌⊎◌, refl, sym, ap, ◌∙◌, String, false, ◌==◌, eq_iff, Option, none, some, List, [], ◌∷◌,
  Bool-cases, inl, inr,
}
use crypto_trading_mcp.Errors.{Result, ok, err, duplicate_order_error}
use crypto_trading_mcp.Persistence.{DurableStore}
use crypto_trading_mcp.Orders.Ledger.{
  IntentStatus, OrderIntent, IntentRow, document, reference, row_intent_id, refer, written, checked,
  persist, mark_row, mark, to_public_dict, persisted, find_by_idempotency, follow,
}
use crypto_trading_mcp.Orders.Ledger.Redaction.{IsRedacted, redacted_lem}

module _ {S W J : Type 0} (d : DurableStore S (IntentRow W J)) where
  -- The key belongs to the intent.
  pub Claimed : String → String → S → Type 0
  Claimed key id s =
      (r : IntentRow W J) × (d.get_json "order_idempotency" key s ≡ ok (some r))
      × (row_intent_id r ≡ id)

  -- The key belongs to no other intent.
  Free : String → String → S → Type 0
  Free key id s =
      (r : IntentRow W J)
      → d.get_json "order_idempotency" key s ≡ ok (some r)
      → row_intent_id r ≡ id

  -- Every recorded intent owns its key.
  unfoldable pub IsConsistent : S → Type 0
  unfolding Claimed
  IsConsistent s =
      (id : String) (i : OrderIntent W J)
      → d.get_json "order_intents" id s ≡ ok (some (document i))
      → Claimed i.idempotency_key id s

  owner :
      (s : S)
      → IsConsistent s
      → (id : String) (i : OrderIntent W J)
      → d.get_json "order_intents" id s ≡ ok (some (document i))
      → Claimed i.idempotency_key id s
  unfolding IsConsistent
  owner s c id i at = c id i at

  Claimed-Free : (key id : String) (s : S) → Claimed key id s → Free key id s
  unfolding Claimed Free
  Claimed-Free key id s (r, row, own) r' row' = cc

  refer-Claimed :
      (key id key' id' : String) (status : IntentStatus) (s : S)
      → Free key id s
      → Claimed key' id' s
      → Claimed key' id' (refer d key id status s)
  unfolding Claimed Free
  refer-Claimed key id key' id' status s free (r, row, own) = elim (Bool-cases (key == key')) [
    | inl same ↦ (
      reference id status,
      simp (d.get-put, same),
      sym (free r (rw ((eq_iff key key').0 same) row)) ∙ own,
    )
    | inr other ↦ (r, simp (d.get-put, other, row), own)
  ]

  refer-Claimed_self :
      (key id : String) (status : IntentStatus) (s : S) → Claimed key id (refer d key id status s)
  unfolding Claimed
  refer-Claimed_self key id status s =
      (reference id status, simp (d.get-put, (eq_iff key key).1 refl), refl)

  put-Claimed :
      (key id k : String) (row : IntentRow W J) (s : S)
      → Claimed key id s
      → Claimed key id (d.put_json "order_intents" k row s)
  unfolding Claimed
  put-Claimed key id k row s (r, found, own) = (r, simp (d.get-put, found), own)

  put-Free :
      (key id k : String) (row : IntentRow W J) (s : S)
      → Free key id s
      → Free key id (d.put_json "order_intents" k row s)
  unfolding Free
  put-Free key id k row s free r found =
      free r (sym (d.get-put "order_intents" k "order_idempotency" key row s) ∙ found)

  Claimed-transport :
      {key key' id id' : String} (s : S)
      → key ≡ key'
      → id ≡ id'
      → Claimed key id s
      → Claimed key' id' s
  unfolding Claimed
  Claimed-transport s p q (r, found, own) = (r, rw (sym p) found, own ∙ q)

  -- What is found after an intent is recorded: that intent, or what was there.
  found_cases :
      (id id' : String) (i i' : OrderIntent W J) (s : S)
      → d.get_json "order_intents" id' (d.put_json "order_intents" id (document i) s)
        ≡ ok (some (document i'))
      → ((id ≡ id') × (i.idempotency_key ≡ i'.idempotency_key))
        ⊎ (d.get_json "order_intents" id' s ≡ ok (some (document i')))
  found_cases id id' i i' s found =
      let seen = sym (d.get-put "order_intents" id "order_intents" id' (document i) s) ∙ found in
      elim (Bool-cases (id == id')) [
        | inl same ↦ inl ((eq_iff id id').0 same, ap key_of (simp (same) at seen))
        | inr other ↦ inr (simp (other) at seen)
      ]
    where
      key_of : Result (Option (IntentRow W J)) → String
      key_of (ok (some (document i))) = i.idempotency_key
      key_of _ = i.idempotency_key

  document-IsConsistent :
      (id : String) (i : OrderIntent W J) (s : S)
      → Claimed i.idempotency_key id s
      → IsConsistent s
      → IsConsistent (d.put_json "order_intents" id (document i) s)
  unfolding IsConsistent
  document-IsConsistent id i s own c id' i' found = elim (found_cases id id' i i' s found) [
    | inl (p, q) ↦ put-Claimed _ id' id (document i) s (Claimed-transport s q p own)
    | inr old ↦ put-Claimed _ id' id (document i) s (c id' i' old)
  ]

  write-IsConsistent :
      (id : String) (i : OrderIntent W J) (status : IntentStatus) (s : S)
      → Free i.idempotency_key id s
      → IsConsistent s
      → IsConsistent
          (refer d i.idempotency_key id status (d.put_json "order_intents" id (document i) s))
  unfolding IsConsistent
  write-IsConsistent id i status s free c id' i' found =
      let s' = d.put_json "order_intents" id (document i) s in
      let key = i.idempotency_key in
      let before =
        sym (d.get-put "order_idempotency" key "order_intents" id' (reference id status) s')
        ∙ found in
      elim (found_cases id id' i i' s before) [
        | inl (p, q) ↦ Claimed-transport _ q p (refer-Claimed_self key id status s')
        | inr old ↦
            refer-Claimed key id i'.idempotency_key id' status s'
              (put-Free key id id (document i) s free)
              (put-Claimed i'.idempotency_key id' id (document i) s (c id' i' old))
      ]

  -- A call to the ledger.
  pub data Call : Type 0 where
    persisting : (String → J) → OrderIntent W J → Call
    marking : String → IntentStatus → Option (List String) → Option String → Call

  unfoldable pub drive : S → List Call → S
  drive s [] = s
  drive s (persisting text i ∷ cs) = drive (persist d text i s).1 cs
  drive s (marking id status codes order_id ∷ cs) = drive (mark d id status codes order_id s).1 cs

  -- What every call keeps: the recorded intents own their keys, and a claim stays.
  unfoldable pub Kept : S → S → Type 0
  Kept s s' = IsConsistent s' × ((key id : String) → Claimed key id s → Claimed key id s')

  written-Kept :
      (text : String → J) (i : OrderIntent W J) (s : S)
      → Free i.idempotency_key i.intent_id s
      → IsConsistent s
      → Kept s (written d text i s).1
  unfolding Kept written to_public_dict
  written-Kept text i s free c = (
    write-IsConsistent i.intent_id (to_public_dict text (record i { status = persisted })) persisted
        s free c,
    λ key id own.
        refer-Claimed i.idempotency_key i.intent_id key id persisted _
          (put-Free i.idempotency_key i.intent_id i.intent_id _ s free)
          (put-Claimed key id i.intent_id _ s own),
  )

  checked-Kept :
      (row : Result (Option (IntentRow W J))) (text : String → J) (i : OrderIntent W J) (s : S)
      → d.get_json "order_idempotency" i.idempotency_key s ≡ row
      → IsConsistent s
      → Kept s (checked d row text i s).1
  unfolding checked Kept Free Claimed
  checked-Kept (err e) text i s at c = (c, λ key id own. own)
  checked-Kept (ok none) text i s at c = written-Kept text i s (λ r found. cc) c
  checked-Kept (ok (some r)) text i s at c = elim (Bool-cases (row_intent_id r == i.intent_id)) [
    | inl same ↦ simp (same) (
        written-Kept text i s
          (Claimed-Free i.idempotency_key i.intent_id s (r, at, (eq_iff _ _).0 same)) c)
    | inr other ↦ simp (other) (c, λ key id own. own)
  ]

  pub persist-Kept :
      (text : String → J) (i : OrderIntent W J) (s : S)
      → IsConsistent s
      → Kept s (persist d text i s).1
  unfolding persist
  persist-Kept text i s = checked-Kept _ text i s refl

  -- A row that is no intent leaves what the ledger says of the intents.
  reference-IsConsistent :
      (id r : String) (status : IntentStatus) (s : S)
      → IsConsistent s
      → IsConsistent (d.put_json "order_intents" id (reference r status) s)
  unfolding IsConsistent
  reference-IsConsistent id r status s c id' i' found =
      let seen =
        sym (d.get-put "order_intents" id "order_intents" id' (reference r status) s) ∙ found in
      elim (Bool-cases (id == id')) [
        | inl same ↦ cc (simp (same) at seen)
        | inr other ↦ put-Claimed _ id' id (reference r status) s (c id' i' (simp (other) at seen))
      ]

  mark_row-Kept :
      (row : Result (Option (IntentRow W J))) (id : String) (status : IntentStatus)
      (codes : Option (List String)) (order_id : Option String) (s : S)
      → d.get_json "order_intents" id s ≡ row
      → IsConsistent s
      → Kept s (mark_row d row id status codes order_id s).1
  unfolding mark_row Kept
  mark_row-Kept (err e) id status codes order_id s at c = (c, λ key id' own. own)
  mark_row-Kept (ok none) id status codes order_id s at c = (c, λ key id' own. own)
  mark_row-Kept (ok (some (reference r old))) id status codes order_id s at c = (
    reference-IsConsistent id r status s c,
    λ key id' own. put-Claimed key id' id (reference r status) s own,
  )
  mark_row-Kept (ok (some (document i))) id status codes order_id s at c =
      let own = owner s c id i at in
      let free = Claimed-Free i.idempotency_key id s own in
      elim (Bool-cases (i.idempotency_key == "")) [
        | inl empty ↦
            simp (empty) (
              document-IsConsistent id _ s own c,
              λ key id' claim. put-Claimed key id' id _ s claim,
            )
        | inr named ↦ simp (named) (
          write-IsConsistent id _ status s free c,
          λ key id' claim.
              refer-Claimed i.idempotency_key id key id' status _
                (put-Free i.idempotency_key id id _ s free) (put-Claimed key id' id _ s claim),
        )
      ]

  pub mark-Kept :
      (id : String) (status : IntentStatus) (codes : Option (List String))
      (order_id : Option String) (s : S)
      → IsConsistent s
      → Kept s (mark d id status codes order_id s).1
  unfolding mark
  mark-Kept id status codes order_id s = mark_row-Kept _ id status codes order_id s refl

  drive-Kept : (s : S) (cs : List Call) → IsConsistent s → Kept s (drive s cs)
  unfolding drive Kept
  drive-Kept s [] c = (c, λ key id own. own)
  drive-Kept s (persisting text i ∷ cs) c =
      let (c', claims) = persist-Kept text i s c in
      let (c'', later) = drive-Kept (persist d text i s).1 cs c' in
      (c'', λ key id own. later key id (claims key id own))
  drive-Kept s (marking id status codes order_id ∷ cs) c =
      let (c', claims) = mark-Kept id status codes order_id s c in
      let (c'', later) = drive-Kept (mark d id status codes order_id s).1 cs c' in
      (c'', λ key id own. later key id (claims key id own))

  pub checked-Claimed :
      (row : Result (Option (IntentRow W J))) (text : String → J) (i : OrderIntent W J) (s : S)
      {i' : OrderIntent W J}
      → (checked d row text i s).0 ≡ ok i'
      → Claimed i.idempotency_key i.intent_id (checked d row text i s).1
  unfolding checked written
  checked-Claimed (err e) text i s h = cc h
  checked-Claimed (ok none) text i s h =
      refer-Claimed_self i.idempotency_key i.intent_id persisted _
  checked-Claimed (ok (some r)) text i s h = elim (Bool-cases (row_intent_id r == i.intent_id)) [
    | inl same ↦ simp (same) (refer-Claimed_self i.idempotency_key i.intent_id persisted _)
    | inr other ↦ cc (simp (other) at h)
  ]

  pub Claimed-persist :
      (key id : String) (text : String → J) (j : OrderIntent W J) (s : S)
      → Claimed key id s
      → key ≡ j.idempotency_key
      → (id == j.intent_id) ≡ false
      → persist d text j s ≡ (err duplicate_order_error, s)
  unfolding persist checked Claimed
  Claimed-persist key id text j s (r, found, own) same other = simp (sym same, found, own, other)

  -- Over a store whose recorded intents own their keys: once `persist` has accepted an intent, it
  -- refuses every other intent with the same idempotency key and writes nothing, whatever calls of
  -- `persist` and `mark` come in between, those that raise included.
  pub persist_unique :
      (text : String → J) (i j : OrderIntent W J) (s : S) (cs : List Call) {i' : OrderIntent W J}
      → IsConsistent s
      → (persist d text i s).0 ≡ ok i'
      → i.idempotency_key ≡ j.idempotency_key
      → (i.intent_id == j.intent_id) ≡ false
      → persist d text j (drive (persist d text i s).1 cs)
        ≡ (err duplicate_order_error, drive (persist d text i s).1 cs)
  unfolding persist Kept
  persist_unique text i j s cs c accepted same other =
      let own =
        checked-Claimed (d.get_json "order_idempotency" i.idempotency_key s) text i s accepted in
      let (c', claims) = drive-Kept (persist d text i s).1 cs (persist-Kept text i s c).0 in
      Claimed-persist i.idempotency_key i.intent_id text j _ (claims _ _ own) same other

  -- The calls keep that the recorded intents own their keys.
  pub drive-IsConsistent : (s : S) (cs : List Call) → IsConsistent s → IsConsistent (drive s cs)
  unfolding Kept
  drive-IsConsistent s cs c = (drive-Kept s cs c).0

  -- What `find_by_idempotency` gives for an intent, or the error of the call.
  shown : (String → J) → Result (OrderIntent W J) → Result (Option (IntentRow W J))
  shown text (err e) = err e
  shown text (ok i) = ok (some (document (to_public_dict text i)))

  written-find :
      (text : String → J) (i : OrderIntent W J) (s : S)
      → find_by_idempotency d i.idempotency_key (written d text i s).1
        ≡ shown text (written d text i s).0
  unfolding written find_by_idempotency follow shown
  written-find text i s = simp (
    d.get-put,
    (eq_iff i.idempotency_key i.idempotency_key).1 refl,
    (eq_iff i.intent_id i.intent_id).1 refl,
  )

  checked-find :
      (row : Result (Option (IntentRow W J))) (text : String → J) (i : OrderIntent W J) (s : S)
      {i' : OrderIntent W J}
      → (checked d row text i s).0 ≡ ok i'
      → find_by_idempotency d i.idempotency_key (checked d row text i s).1 ≡ shown text (ok i')
  unfolding checked
  checked-find (err e) text i s h = cc h
  checked-find (ok none) text i s h = written-find text i s ∙ ap (shown text) h
  checked-find (ok (some r)) text i s h = elim (Bool-cases (row_intent_id r == i.intent_id)) [
    | inl same ↦ simp (same) (written-find text i s ∙ ap (shown text) (simp (same) at h))
    | inr other ↦ cc (simp (other) at h)
  ]

  checked-accepted :
      (row : Result (Option (IntentRow W J))) (text : String → J) (i : OrderIntent W J) (s : S)
      {i' : OrderIntent W J}
      → (checked d row text i s).0 ≡ ok i'
      → i' ≡ record i { status = persisted }
  unfolding checked written
  checked-accepted (err e) text i s h = cc h
  checked-accepted (ok none) text i s h = cc h
  checked-accepted (ok (some r)) text i s h = elim (Bool-cases (row_intent_id r == i.intent_id)) [
    | inl same ↦ cc (simp (same) at h)
    | inr other ↦ cc (simp (other) at h)
  ]

  -- An intent that `persist` has accepted is returned with the status PERSISTED, and a document is
  -- found under its key that is the intent so returned but for the metadata: there each value whose
  -- key has "secret", "api_key", "token" or "password" in it, in any case, reads "[REDACTED]", and
  -- all other entries are as they were.
  pub persist-find :
      (text : String → J) (i : OrderIntent W J) (s : S) {i' : OrderIntent W J}
      → (persist d text i s).0 ≡ ok i'
      → (i' ≡ record i { status = persisted })
        × (j : OrderIntent W J) × (find_by_idempotency d i.idempotency_key (persist d text i s).1
            ≡ ok (some (document j)))
        × IsRedacted text i.metadata j.metadata
        × (record j { metadata = i.metadata } ≡ record i { status = persisted })
  unfolding persist shown to_public_dict
  persist-find text i s {i'} h =
      let row = d.get_json "order_idempotency" i.idempotency_key s in
      let same = checked-accepted row text i s h in
      (
        same,
        to_public_dict text (record i { status = persisted }),
        checked-find row text i s h ∙ ap (λ x. shown text (ok x)) same,
        redacted_lem text i.metadata,
        refl,
      )
