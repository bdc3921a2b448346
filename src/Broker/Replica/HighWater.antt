-- ===== src/Broker/Replica/HighWater.antt =====
-- The high-water mark and the acknowledgements of acks=all.
use replog.Prelude.{
  subst, sym, ◌∙◌, if_cases, ℕ, ◌<◌, ◌≤◌, ◌≡◌, refl, ap, min, max, true, false, ◌⊎◌, inl, inr, List,
  [], ◌∷◌, All, arith, Bool-cases, ltb, ◌==◌, if◌then◌else◌,
}
use replog.Broker.Replica.{
  Pending, ReplState, Replica, matched_of, lowest, split_pending, drain_pending, advance_leader,
  advance_hwm,
}

-- The follower has fetched up to `hwm`, unless it is the leader itself.
abbrev pub IsMatched : ReplState → ℕ → ℕ → ℕ → Type 0
IsMatched state self_id hwm follower = (follower ≡ self_id) ⊎ (hwm ≤ matched_of state follower)

lowest-le :
    (state : ReplState) (self_id hwm : ℕ) (isr : List ℕ) → lowest state self_id hwm isr ≤ hwm
unfolding lowest
lowest-le state self_id hwm [] = omega arith
lowest-le state self_id hwm (f ∷ isr) = ground (
  arith,
  lowest-le state self_id (if f == self_id then hwm else min hwm (matched_of state f)) isr,
)

lowest-IsMatched :
    (state : ReplState) (self_id hwm : ℕ) (isr : List ℕ)
    → All (IsMatched state self_id (lowest state self_id hwm isr)) isr
unfolding lowest
lowest-IsMatched state self_id hwm [] = tt
lowest-IsMatched state self_id hwm (f ∷ isr) =
    let next = if f == self_id then hwm else min hwm (matched_of state f) in
    (
      elim (Bool-cases (f == self_id)) [
        | inl e ↦ inl (ground arith)
        | inr e ↦ inr (ground (arith, lowest-le state self_id next isr))
      ],
      lowest-IsMatched state self_id next isr,
    )

advance_hwm-leader :
    (replica : Replica) (self_id log_end : ℕ)
    → replica.state.is_leader ≡ true
    → advance_hwm replica self_id log_end ≡ advance_leader replica self_id log_end
unfolding advance_hwm
advance_hwm-leader replica self_id log_end l =
    ap (λ b. if b then advance_leader replica self_id log_end else (replica, [])) l

pub advance_hwm-follower :
    (replica : Replica) (self_id log_end : ℕ)
    → replica.state.is_leader ≡ false
    → advance_hwm replica self_id log_end ≡ (replica, [])
unfolding advance_hwm
advance_hwm-follower replica self_id log_end l =
    ap (λ b. if b then advance_leader replica self_id log_end else (replica, [])) l

-- The mark stays, or goes up to an offset in the log that every member of the ISR has fetched.
pub advance_hwm-IsMatched :
    (replica : Replica) (self_id log_end : ℕ)
    → let hwm = (advance_hwm replica self_id log_end).0.hwm in
      (hwm ≡ replica.hwm)
      ⊎ ((replica.hwm < hwm)
          × (hwm ≤ log_end)
          × All (IsMatched replica.state self_id hwm) replica.state.isr)
unfolding advance_leader
advance_hwm-IsMatched replica self_id log_end =
    let hwm = lowest replica.state self_id log_end replica.state.isr in
    elim (Bool-cases replica.state.is_leader) [
      | inr l ↦ inl (rw (advance_hwm-follower replica self_id log_end l) refl)
      | inl l ↦ elim (Bool-cases (ltb replica.hwm hwm)) [
        | inr e ↦ inl (rw (advance_hwm-leader replica self_id log_end l) (rw e refl))
        | inl e ↦ inr (
            rw (advance_hwm-leader replica self_id log_end l) (
              rw e (
                ground arith,
                lowest-le replica.state self_id log_end replica.state.isr,
                lowest-IsMatched replica.state self_id log_end replica.state.isr,
              )))
      ]
    ]

-- The elements of two lists, each in its order, make up a third.
pub data Interleaves {ℓ} {A : Type ℓ} : List A → List A → List A → Type ℓ where
  none_left : Interleaves [] [] []
  left : (x : A) (xs ys zs : List A) → Interleaves xs ys zs → Interleaves (x ∷ xs) ys (x ∷ zs)
  right : (y : A) (xs ys zs : List A) → Interleaves xs ys zs → Interleaves xs (y ∷ ys) (y ∷ zs)

-- The first list has the entries of the queue that end below the mark, the second has those that end
-- at or above it, both in the order of the queue.
abbrev pub IsSplit : ℕ → List Pending → List Pending × List Pending → Type 0
IsSplit hwm queue parts =
    All (λ e. e.last_offset < hwm) parts.0
    × All (λ e. hwm ≤ e.last_offset) parts.1
    × Interleaves parts.0 parts.1 queue

split_pending-IsSplit : (hwm : ℕ) (es : List Pending) → IsSplit hwm es (split_pending hwm es)
unfolding split_pending
split_pending-IsSplit hwm [] = (tt, tt, none_left)
split_pending-IsSplit hwm (e ∷ es) =
    let (below, above, order) = split_pending-IsSplit hwm es in
    let rest = split_pending hwm es in
    if_cases (IsSplit hwm (e ∷ es)) (ltb e.last_offset hwm) (e ∷ rest.0, rest.1)
      (rest.0, e ∷ rest.1) (λ c. ((ground arith, below), above, left e rest.0 rest.1 es order))
      (λ c. (below, (ground arith, above), right e rest.0 rest.1 es order))

-- On a leader, the produces that are answered and those that stay parked are together the queue, each
-- in its order there: the answered ones are exactly those that end below the new mark.
pub advance_hwm-covered :
    (replica : Replica) (self_id log_end : ℕ)
    → replica.state.is_leader ≡ true
    → let after = advance_hwm replica self_id log_end in
      All (λ e. e.last_offset < after.0.hwm) after.1
      × All (λ e. after.0.hwm ≤ e.last_offset) after.0.state.pending_all
      × Interleaves after.1 after.0.state.pending_all replica.state.pending_all
unfolding advance_leader drain_pending
advance_hwm-covered replica self_id log_end l =
    let hwm = lowest replica.state self_id log_end replica.state.isr in
    let top : (if ltb replica.hwm hwm then hwm else replica.hwm) ≡ max hwm replica.hwm =
      ground arith in
    rw (advance_hwm-leader replica self_id log_end l)
      (rw top (split_pending-IsSplit (max hwm replica.hwm) replica.state.pending_all))

-- The parked produces have no part in the mark.
lowest-pending :
    (state : ReplState) (es : List Pending) (self_id hwm : ℕ) (isr : List ℕ)
    → lowest (record state { pending_all = es }) self_id hwm isr ≡ lowest state self_id hwm isr
unfolding lowest matched_of
lowest-pending state es self_id hwm [] = refl
lowest-pending state es self_id hwm (f ∷ isr) =
    lowest-pending state es self_id (if f == self_id then hwm else min hwm (matched_of state f)) isr

split_pending-above :
    (hwm : ℕ) (es : List Pending)
    → All (λ e. hwm ≤ e.last_offset) es
    → split_pending hwm es ≡ ([], es)
unfolding split_pending
split_pending-above hwm [] h = refl
split_pending-above hwm (e ∷ es) (h, hs) =
    let past : ltb e.last_offset hwm ≡ false = ground arith in
    rw (past, split_pending-above hwm es hs) refl

-- A leader whose mark is at the minimum already, with no produce below it.
advance_leader-done :
    (r : Replica) (self_id log_end : ℕ)
    → lowest r.state self_id log_end r.state.isr ≤ r.hwm
    → All (λ e. r.hwm ≤ e.last_offset) r.state.pending_all
    → advance_leader r self_id log_end ≡ (r, [])
unfolding advance_leader drain_pending
advance_leader-done r self_id log_end h parked =
    let low = lowest r.state self_id log_end r.state.isr in
    let top : max low r.hwm ≡ r.hwm = omega arith in
    let past : ltb r.hwm low ≡ false = ground arith in
    rw (top, past, split_pending-above r.hwm r.state.pending_all parked) refl

-- The minimum is at most the mark that is set to it, and the parked produces end at or above that.
abbrev IsDone : ℕ → ℕ → Replica → Type 0
IsDone self_id log_end r =
    (lowest r.state self_id log_end r.state.isr ≤ r.hwm)
    × All (λ e. r.hwm ≤ e.last_offset) r.state.pending_all

advance_leader-IsDone :
    (r : Replica) (self_id log_end : ℕ)
    → IsDone self_id log_end (advance_leader r self_id log_end).0
unfolding advance_leader drain_pending
advance_leader-IsDone r self_id log_end =
    let low = lowest r.state self_id log_end r.state.isr in
    let parts = split_pending (max low r.hwm) r.state.pending_all in
    let top : max low r.hwm ≡ (if ltb r.hwm low then low else r.hwm) = ground arith in
    let same = lowest-pending r.state parts.1 self_id log_end r.state.isr in
    let most : low ≤ (if ltb r.hwm low then low else r.hwm) = ground arith in
    (
      subst (λ n. n ≤ (if ltb r.hwm low then low else r.hwm)) (sym same) most,
      subst (λ n. All (λ e. n ≤ e.last_offset) parts.1) top
          (split_pending-IsSplit (max low r.hwm) r.state.pending_all).1,
    )

-- A second advance at the same end of the log changes nothing and answers nothing.
pub advance_hwm_again :
    (r : Replica) (self_id log_end : ℕ)
    → let after = (advance_hwm r self_id log_end).0 in
      advance_hwm after self_id log_end ≡ (after, [])
unfolding advance_leader drain_pending
advance_hwm_again r self_id log_end = elim (Bool-cases r.state.is_leader) [
  | inl l ↦
      let after = (advance_leader r self_id log_end).0 in
      let (low, parked) = advance_leader-IsDone r self_id log_end in
      let again : advance_hwm after self_id log_end ≡ (after, []) =
        advance_hwm-leader after self_id log_end l
        ∙ advance_leader-done after self_id log_end low parked in
      rw (advance_hwm-leader r self_id log_end l) again
  | inr f ↦ let still = advance_hwm-follower r self_id log_end f in rw still still
]
