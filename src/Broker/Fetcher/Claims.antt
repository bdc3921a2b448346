-- ===== src/Broker/Fetcher/Claims.antt =====
-- A fetcher whose claim on the replica has lapsed.
use replog.Prelude.{
  ℕ, ◌+◌, ◌≡◌, refl, Bool, true, false, not, ◌&&◌, arith, ◌==◌, if_cases, if◌then◌else◌, [],
}
use replog.Proto.Meta.{PartitionMeta}
use replog.Broker.Replica.{ReplState}
use replog.Broker.Roles.{
  Update, keep_role, become_leader, become_follower, unchanged, leads, update, is_some_leader,
}
use replog.Broker.Fetcher.{is_current}
use replog.Prelude.Maps.{same}

-- No transition, or a new generation that only a follower's fetcher may use.
abbrev IsLapsed : ReplState → Update → Type 0
IsLapsed st u = u.transition ≡ true → is_current u.state st.fetcher_generation ≡ false

lapsed : (b : Bool) (n : ℕ) → (b && (n + 1) == n) ≡ false
lapsed true n = ground arith
lapsed false n = refl

-- A transition of the replica ends the claim of the fetcher that ran before it: whatever that fetcher
-- receives later, `is_current` is false for it.
pub update-IsLapsed :
    (self_id now : ℕ) (p : PartitionMeta) (st : ReplState)
    → (update self_id now p st).transition ≡ true
    → is_current (update self_id now p st).state st.fetcher_generation ≡ false
unfolding update keep_role become_leader become_follower is_current
update-IsLapsed self_id now p st =
    if_cases (IsLapsed st) (unchanged self_id p st) (keep_role p st) _
      (λ e.
        if_cases (IsLapsed st)
          (not st.is_leader && (not st.fetcher_alive && is_some_leader p.leader))
          (record {
            state = record st {
              isr = if not (same st.isr p.isr) then p.isr else st.isr;
              fetcher_generation = st.fetcher_generation + 1;
              fetcher_alive = true;
            };
            failed = [];
            transition = true;
            generation = st.fetcher_generation + 1;
          })
          (record {
            state = record st { isr = if not (same st.isr p.isr) then p.isr else st.isr };
            failed = [];
            transition = false;
            generation = st.fetcher_generation;
          })
          (λ f t. lapsed (not st.is_leader) st.fetcher_generation) (λ f t. ground arith))
      (λ e.
        if_cases (IsLapsed st) (leads self_id p) (become_leader now p st) (become_follower p st)
          (λ f t. refl) (λ f t. lapsed true st.fetcher_generation))
