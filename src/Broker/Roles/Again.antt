-- ===== src/Broker/Roles/Again.antt =====
-- Metadata applied twice.
use replog.Prelude.{
  ℕ, ◌+◌, ◌≡◌, refl, ap, sym, ◌∙◌, Bool, true, false, not, ◌&&◌, [], arith, ==-refl, if_cases,
  if◌then◌else◌,
}
use replog.Prelude.Maps.{same}
use replog.Proto.Meta.{PartitionMeta}
use replog.Broker.Replica.{Replica, ReplState, advance_hwm}
use replog.Broker.Roles.{
  leads, is_some_leader, Update, keep_role, become_leader, become_follower, unchanged, update,
  Outcome,
}
use replog.Broker.Roles.Agrees.{Agrees, taken_over, same_role_refl, update-Agrees}

-- An update leaves nothing to do for the metadata that it applied: no fetcher is missing.
abbrev IsQuietState : PartitionMeta → ReplState → Type 0
IsQuietState p st = (not st.is_leader && (not st.fetcher_alive && is_some_leader p.leader)) ≡ false

abbrev IsQuiet : PartitionMeta → Update → Type 0
IsQuiet p u = IsQuietState p u.state

keep_role-IsQuiet : (p : PartitionMeta) (st : ReplState) → IsQuiet p (keep_role p st)
unfolding keep_role
keep_role-IsQuiet p st =
    let isr = if not (same st.isr p.isr) then p.isr else st.isr in
    if_cases (IsQuiet p) (not st.is_leader && (not st.fetcher_alive && is_some_leader p.leader))
      (record {
        state = record st {
          isr = isr;
          fetcher_generation = st.fetcher_generation + 1;
          fetcher_alive = true;
        };
        failed = [];
        transition = true;
        generation = st.fetcher_generation + 1;
      })
      (record {
        state = record st { isr = isr };
        failed = [];
        transition = false;
        generation = st.fetcher_generation;
      })
      (λ e. ground arith) (λ e. e)

update-IsQuiet :
    (self_id now : ℕ) (p : PartitionMeta) (st : ReplState) → IsQuiet p (update self_id now p st)
unfolding update become_leader become_follower
update-IsQuiet self_id now p st =
    if_cases (IsQuiet p) (unchanged self_id p st) (keep_role p st) _ (λ e. keep_role-IsQuiet p st)
      (λ e.
        if_cases (IsQuiet p) (leads self_id p) (become_leader now p st) (become_follower p st)
          (λ t. refl) (λ t. ground arith))

unchanged_same :
    (self_id : ℕ) (p : PartitionMeta) (st : ReplState)
    → Agrees self_id p st
    → unchanged self_id p st ≡ true
unfolding unchanged
unchanged_same self_id p st (epoch, leader, isr) = rw (epoch, leader, ==-refl, same_role_refl) refl

-- The state of an update whose lists are already those of the metadata.
abbrev settled : ReplState → Update
settled st = record {
  state = st;
  failed = [];
  transition = false;
  generation = st.fetcher_generation;
}

if_false : {A : Type 0} (x y : A) (b : Bool) → b ≡ false → (if b then x else y) ≡ y
if_false x y true e = ground arith
if_false x y false e = refl

if_true : {A : Type 0} (x y : A) (b : Bool) → b ≡ true → (if b then x else y) ≡ x
if_true x y true e = refl
if_true x y false e = ground arith

keep_role-settled :
    (self_id : ℕ) (p : PartitionMeta) (st : ReplState)
    → Agrees self_id p st
    → (not st.is_leader && (not st.fetcher_alive && is_some_leader p.leader)) ≡ false
    → keep_role p st ≡ settled st
unfolding keep_role
keep_role-settled self_id p st (epoch, leader, isr) quiet =
    if_false _ _ (not st.is_leader && (not st.fetcher_alive && is_some_leader p.leader)) quiet
    ∙ ap (λ xs. settled (record st { isr = xs })) (taken_over st.isr p.isr ∙ sym isr)

update-keep_role :
    (self_id now : ℕ) (p : PartitionMeta) (st : ReplState)
    → unchanged self_id p st ≡ true
    → update self_id now p st ≡ keep_role p st
unfolding update
update-keep_role self_id now p st e = if_true (keep_role p st) _ (unchanged self_id p st) e

-- The block under the lock, run a second time on the state that it left, changes nothing there.
pub update-settled :
    (self_id now later : ℕ) (p : PartitionMeta) (st : ReplState)
    → let once = (update self_id now p st).state in
      update self_id later p once ≡ record {
        state = once;
        failed = [];
        transition = false;
        generation = once.fetcher_generation;
      }
update-settled self_id now later p st =
    let once = (update self_id now p st).state in
    let agrees = update-Agrees self_id now p st in
    update-keep_role self_id later p once (unchanged_same self_id p once agrees)
    ∙ keep_role-settled self_id p once agrees (update-IsQuiet self_id now p st)

-- A replica with nothing to do for the metadata, whose mark is advanced already.
abbrev IsSettled : ℕ → ℕ → PartitionMeta → Outcome → Type 0
IsSettled self_id log_end p o =
    IsQuietState p o.replica.state × (advance_hwm o.replica self_id log_end ≡ (o.replica, []))
