-- ===== src/Broker/Roles/Agrees.antt =====
-- What a replica is after the metadata of its partition.
use replog.Prelude.{
  ℕ, ◌≤◌, ◌≡◌, refl, sym, ◌∙◌, Bool, true, false, not, ◌&&◌, Option, none, some, List, [], ◌∷◌,
  arith, inl, inr, Bool-cases, ltb, if_cases, if◌then◌else◌,
}
use replog.Prelude.Maps.{same}
use replog.Proto.Meta.{PartitionMeta, ClusterMeta}
use replog.Broker.Replica.{
  Pending, ReplState, Replica, advance_leader, advance_hwm, drain_pending, lowest,
}
use replog.Broker.Roles.{
  same_role, leads, is_some_leader, Update, keep_role, become_leader, become_follower, unchanged,
  update, Outcome, advanced, apply_partition, fetcher_of,
}

pub same_sound : (xs ys : List ℕ) → same xs ys ≡ true → xs ≡ ys
same_sound [] [] h = refl
same_sound [] (y ∷ ys) h = ground arith
same_sound (x ∷ xs) [] h = ground arith
same_sound (x ∷ xs) (y ∷ ys) h = ground (arith, same_sound xs ys)

same_role_sound : (a b : Bool) → same_role a b ≡ true → a ≡ b
unfolding same_role
same_role_sound true b h = sym h
same_role_sound false true h = ground arith
same_role_sound false false h = refl

pub same_role_refl : (a : Bool) → same_role a a ≡ true
unfolding same_role
same_role_refl true = refl
same_role_refl false = refl

-- The replica is what the metadata says.
abbrev pub Agrees : ℕ → PartitionMeta → ReplState → Type 0
Agrees self_id p st =
    (st.epoch ≡ p.leader_epoch) × (st.is_leader ≡ leads self_id p) × (st.isr ≡ p.isr)

-- The list of the metadata is taken over.
pub taken_over : (xs ys : List ℕ) → (if not (same xs ys) then ys else xs) ≡ ys
taken_over xs ys = elim (Bool-cases (same xs ys)) [
  | inl e ↦ rw e (same_sound xs ys e)
  | inr e ↦ rw e refl
]

unchanged-Agrees :
    (self_id : ℕ) (p : PartitionMeta) (st : ReplState)
    → unchanged self_id p st ≡ true
    → (st.epoch ≡ p.leader_epoch) × (st.is_leader ≡ leads self_id p)
unfolding unchanged
unchanged-Agrees self_id p st h =
    (ground arith, same_role_sound st.is_leader (leads self_id p) (ground arith))

abbrev UpdateAgrees : ℕ → PartitionMeta → Update → Type 0
UpdateAgrees self_id p u = Agrees self_id p u.state

keep_role-Agrees :
    (self_id : ℕ) (p : PartitionMeta) (st : ReplState)
    → unchanged self_id p st ≡ true
    → UpdateAgrees self_id p (keep_role p st)
unfolding keep_role
keep_role-Agrees self_id p st h =
    let a = unchanged-Agrees self_id p st h in
    if_cases (UpdateAgrees self_id p)
      (not st.is_leader && (not st.fetcher_alive && is_some_leader p.leader)) _
      (record {
        state = record st { isr = if not (same st.isr p.isr) then p.isr else st.isr };
        failed = [];
        transition = false;
        generation = st.fetcher_generation;
      })
      (λ e. (a.0, a.1, taken_over st.isr p.isr)) (λ e. (a.0, a.1, taken_over st.isr p.isr))

pub update-Agrees :
    (self_id now : ℕ) (p : PartitionMeta) (st : ReplState)
    → UpdateAgrees self_id p (update self_id now p st)
unfolding update become_leader become_follower
update-Agrees self_id now p st =
    if_cases (UpdateAgrees self_id p) (unchanged self_id p st) (keep_role p st) _
      (keep_role-Agrees self_id p st)
      (λ e.
        if_cases (UpdateAgrees self_id p) (leads self_id p) (become_leader now p st)
          (become_follower p st) (λ l. (refl, sym l, refl)) (λ l. (refl, sym l, refl)))

-- The advance of the mark keeps what the metadata set, and does not take the mark back.
abbrev IsKept : Replica → Replica × List Pending → Type 0
IsKept r a =
    (a.0.state.epoch ≡ r.state.epoch)
    × (a.0.state.is_leader ≡ r.state.is_leader)
    × (a.0.state.isr ≡ r.state.isr)
    × (r.hwm ≤ a.0.hwm)

raised : (current hwm : ℕ) → current ≤ (if ltb current hwm then hwm else current)
raised current hwm = ground arith

pub advance_hwm-IsKept :
    (r : Replica) (self_id log_end : ℕ) → IsKept r (advance_hwm r self_id log_end)
unfolding advance_hwm advance_leader drain_pending
advance_hwm-IsKept r self_id log_end =
    if_cases (IsKept r) r.state.is_leader (advance_leader r self_id log_end) (r, [])
      (λ e. (refl, refl, refl, raised r.hwm (lowest r.state self_id log_end r.state.isr)))
      (λ e. (refl, refl, refl, omega arith))

-- A broker that loses the lead keeps no parked produce, and answers each with NotLeader.
abbrev IsDemoted : ℕ → PartitionMeta → ReplState → Update → Type 0
IsDemoted self_id p st u =
    st.is_leader ≡ true
    → leads self_id p ≡ false
    → (u.state.pending_all ≡ []) × (u.failed ≡ st.pending_all) × (u.transition ≡ true)

update-IsDemoted :
    (self_id now : ℕ) (p : PartitionMeta) (st : ReplState)
    → IsDemoted self_id p st (update self_id now p st)
unfolding update become_leader become_follower
update-IsDemoted self_id now p st =
    if_cases (IsDemoted self_id p st) (unchanged self_id p st) (keep_role p st) _
      (λ e l f. ground (arith, (unchanged-Agrees self_id p st e).1))
      (λ e.
        if_cases (IsDemoted self_id p st) (leads self_id p) (become_leader now p st)
          (become_follower p st) (λ t l f. ground arith) (λ t l f. (refl, refl, refl)))

abbrev OutcomeAgrees : ℕ → PartitionMeta → Replica → Outcome → Type 0
OutcomeAgrees self_id p r o =
    Agrees self_id p o.replica.state
    × (r.hwm ≤ o.replica.hwm)
    × (r.state.is_leader ≡ true
        → leads self_id p ≡ false
        → (o.replica.state.pending_all ≡ []) × (o.failed ≡ r.state.pending_all))

advanced-Agrees :
    (self_id log_end : ℕ) (p : PartitionMeta) (r : Replica) (failed : List Pending)
    (recorded : Option ℕ)
    → Agrees self_id p r.state
    → Agrees self_id p (advanced self_id log_end r failed recorded).replica.state
      × (r.hwm ≤ (advanced self_id log_end r failed recorded).replica.hwm)
unfolding advanced
advanced-Agrees self_id log_end p r failed recorded (epoch, leader, isr) =
    let kept = advance_hwm-IsKept r self_id log_end in
    ((kept.0 ∙ epoch, kept.1 ∙ leader, kept.2 ∙ isr), kept.3)

-- Applying the metadata of a partition makes its replica agree with it in epoch, role and ISR, and
-- does not take the high-water mark back; where the broker led and leads no more, no parked produce is
-- left, and each that was parked is answered with NotLeader.
pub apply_partition-Agrees :
    (self_id now log_end : ℕ) (meta : ClusterMeta) (p : PartitionMeta) (r : Replica)
    → let o = apply_partition self_id now log_end meta p r in
      Agrees self_id p o.replica.state
      × (r.hwm ≤ o.replica.hwm)
      × (r.state.is_leader ≡ true
          → leads self_id p ≡ false
          → (o.replica.state.pending_all ≡ []) × (o.failed ≡ r.state.pending_all))
unfolding apply_partition
apply_partition-Agrees self_id now log_end meta p r =
    let u = update self_id now p r.state in
    let agrees = update-Agrees self_id now p r.state in
    let demoted = update-IsDemoted self_id now p r.state in
    let updated : Replica = record r { state = u.state } in
    let moved =
      λ (recorded : Option ℕ). advanced-Agrees self_id log_end p updated u.failed recorded agrees in
    let still : Outcome = record {
      replica = updated;
      failed = u.failed;
      answered = [];
      recorded = none;
      fetcher = fetcher_of meta p u.generation;
    } in
    if_cases (OutcomeAgrees self_id p r) (not u.transition)
      (advanced self_id log_end updated u.failed none) _
      (λ e. ((moved none).0, (moved none).1, λ l f. ground (arith, (demoted l f).2)))
      (λ e.
        if_cases (OutcomeAgrees self_id p r) (leads self_id p)
          (advanced self_id log_end updated u.failed (some p.leader_epoch)) still
          (λ t.
            ((moved (some p.leader_epoch)).0, (moved (some p.leader_epoch)).1, λ l f. ground arith))
          (λ t. (agrees, omega arith, λ l f. ((demoted l f).0, (demoted l f).1))))
