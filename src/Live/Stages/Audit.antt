-- ===== src/Live/Stages/Audit.antt =====
-- The audit trail of `TradingStageManager`: no stage is skipped, and live stages are earned.
use crypto_trading_mcp.Prelude.{
  ℕ, ◌+◌, ◌≤◌, ◌<◌, ◌≡◌, Bool, true, false, not, ◌&&◌, List, [], ◌∷◌, ◌++◌, any, eqb, length, arith,
  String,
}
use crypto_trading_mcp.Text.{is_blank}
use crypto_trading_mcp.Live.Stages.{
  TradingStage, index, Action, demote, promote_action, Entry, TradingStageManager, promote, Request,
  drive, is_live_stage, stage_1_local_paper,
}

abbrev is_promotion : Action → Bool
is_promotion promote_action = true
is_promotion demote = false

-- The entry records a promotion to the stage with index `j`, with an operator and evidence.
abbrev pub attests : ℕ → Entry → Bool
attests j h =
    is_promotion h.action
    && eqb (index h.to_stage) j
    && not (is_blank h.operator)
    && not (is_blank h.evidence)

-- Every stage above the first local one, up to the present one, has such an entry.
abbrev pub IsAudited : TradingStageManager → Type 0
IsAudited m = (j : ℕ) → 1 < j → j ≤ index m.current → any (attests j) m.history ≡ true

any-append_left :
    (j : ℕ) (xs ys : List Entry) → any (attests j) xs ≡ true → any (attests j) (xs ++ ys) ≡ true
any-append_left j [] ys h = cc
any-append_left j (x ∷ xs) ys h = ground (arith, any-append_left j xs ys)

any-append_last :
    (j : ℕ) (xs : List Entry) (x : Entry)
    → attests j x ≡ true
    → any (attests j) (xs ++ x ∷ []) ≡ true
any-append_last j [] x h = ground arith
any-append_last j (y ∷ xs) x h = ground (arith, any-append_last j xs x h)

promote-IsAudited :
    (t : TradingStage) (operator evidence : String) (skip : Bool) (m : TradingStageManager)
    → IsAudited m
    → IsAudited (promote t operator evidence skip m).1
unfolding promote
promote-IsAudited t operator evidence skip m a j low high =
    let down : Entry = record {
      from_stage = m.current;
      to_stage = t;
      operator = operator;
      evidence = evidence;
      action = demote;
    } in
    let up : Entry = record {
      from_stage = m.current;
      to_stage = t;
      operator = operator;
      evidence = evidence;
      action = promote_action;
    } in
    ground (
      arith,
      a j low,
      any-append_left j m.history (down ∷ []),
      any-append_left j m.history (up ∷ []),
      any-append_last j m.history up,
    )

drive-IsAudited :
    (m : TradingStageManager) (rs : List Request) → IsAudited m → IsAudited (drive m rs)
unfolding drive
drive-IsAudited m [] a = a
drive-IsAudited m (r ∷ rs) a =
    drive-IsAudited (promote r.target r.operator r.evidence r.force_skip m).1 rs
      (promote-IsAudited r.target r.operator r.evidence r.force_skip m a)

abbrev pub fresh : TradingStageManager
fresh = record { current = stage_1_local_paper; history = [] }

index-live : (s : TradingStage) → is_live_stage s ≡ true → 5 ≤ index s
unfolding index
index-live s h = ground arith

-- From the default stage, whatever is requested and refused: if live orders are allowed, the
-- history holds a promotion with an operator and evidence for each of the stages 2, 3, 4 and 5.
pub live_is_audited :
    (rs : List Request) (j : ℕ)
    → is_live_stage (drive fresh rs).current ≡ true
    → 1 < j
    → j ≤ 5
    → any (attests j) (drive fresh rs).history ≡ true
live_is_audited rs j live low high =
    drive-IsAudited fresh rs initial j low (omega (arith, index-live _ live))
  where
    initial : IsAudited fresh
    initial k l h = absurd (unfold index in omega arith)

promote-index :
    (t : TradingStage) (operator evidence : String) (skip : Bool) (m : TradingStageManager)
    → index (promote t operator evidence skip m).1.current ≤ index m.current + 1
unfolding promote
promote-index t operator evidence skip m = ground arith

-- One request climbs one stage at most: `n` requests climb `n` stages at most.
drive-index :
    (m : TradingStageManager) (rs : List Request)
    → index (drive m rs).current ≤ index m.current + length rs
unfolding drive
drive-index m [] = omega arith
drive-index m (r ∷ rs) = omega (
  arith,
  promote-index r.target r.operator r.evidence r.force_skip m,
  drive-index (promote r.target r.operator r.evidence r.force_skip m).1 rs,
)
