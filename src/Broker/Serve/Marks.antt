-- ===== src/Broker/Serve/Marks.antt =====
-- The high-water mark of a replica over the steps of a broker: each holds the lock of the replica's
-- state while it changes it, and the steps come in any order.
use replog.Prelude.{
  ℕ, ◌+◌, ◌<◌, ◌≤◌, not, Option, none, some, List, [], ◌∷◌, ◌++◌, All, arith, inl, inr, Bool-cases,
  if_cases, ◌-◌, All-append,
}
use replog.Proto.Codes.{ErrorCode, is_none}
use replog.Proto.Meta.{PartitionMeta, ClusterMeta}
use replog.Broker.Replica.{Pending, Replica, advance_hwm}
use replog.Broker.Replica.HighWater.{advance_hwm-covered, advance_hwm-follower}
use replog.Broker.Roles.{leads, update, Outcome, advanced, apply_partition, fetcher_of, invalidate}
use replog.Broker.Roles.Agrees.{advance_hwm-IsKept}
use replog.Broker.Isr.{settle, adopt}
use replog.Broker.Serve.{park, accept, replica_fetch}

-- The mark did not go back, and covers what was answered.
abbrev IsMarked : ℕ → Replica × List Pending → Type 0
IsMarked hwm after = (hwm ≤ after.0.hwm) × All (λ e. e.last_offset < after.0.hwm) after.1

advance_hwm-IsMarked :
    (r : Replica) (self_id log_end : ℕ) → IsMarked r.hwm (advance_hwm r self_id log_end)
advance_hwm-IsMarked r self_id log_end = elim (Bool-cases r.state.is_leader) [
  | inl l ↦ ((advance_hwm-IsKept r self_id log_end).3, (advance_hwm-covered r self_id log_end l).0)
  | inr f ↦ rw (advance_hwm-follower r self_id log_end f) (omega arith, tt)
]

-- The steps, each with the produces that it answers with Ok.
pub data Step (self_id : ℕ) : Replica → Replica × List Pending → Type 0 where
  -- metadata of the partition
  applied :
      (r : Replica) (now log_end : ℕ) (meta : ClusterMeta) (p : PartitionMeta)
      → Step self_id r (
        (apply_partition self_id now log_end meta p r).replica,
        (apply_partition self_id now log_end meta p r).answered,
      )
  -- a produce with acks=all whose records are in the log
  parked :
      (r : Replica) (log_end base count reply : ℕ)
      → Step self_id r (park r self_id log_end base count reply)
  -- a fetch of a follower
  fetched :
      (r : Replica) (follower_id leader_epoch offset log_end now : ℕ)
      → Step self_id r (replica_fetch r self_id follower_id leader_epoch offset log_end now).0
  -- the controller's answer to a proposal
  settled :
      (r : Replica) (log_end epoch : ℕ) (desired : List ℕ) (error : ErrorCode)
      → Step self_id r (settle r self_id log_end epoch desired error)
  -- the end of the broker
  stopped : (r : Replica) → Step self_id r (record r { state = (invalidate r.state).0 }, [])

abbrev OutcomeIsMarked : ℕ → Outcome → Type 0
OutcomeIsMarked hwm o = IsMarked hwm (o.replica, o.answered)

advanced-IsMarked :
    (self_id log_end : ℕ) (r : Replica) (failed : List Pending) (recorded : Option ℕ)
    → OutcomeIsMarked r.hwm (advanced self_id log_end r failed recorded)
unfolding advanced
advanced-IsMarked self_id log_end r failed recorded = advance_hwm-IsMarked r self_id log_end

apply_partition-IsMarked :
    (self_id now log_end : ℕ) (meta : ClusterMeta) (p : PartitionMeta) (r : Replica)
    → OutcomeIsMarked r.hwm (apply_partition self_id now log_end meta p r)
unfolding apply_partition
apply_partition-IsMarked self_id now log_end meta p r =
    let u = update self_id now p r.state in
    let updated : Replica = record r { state = u.state } in
    let still : Outcome = record {
      replica = updated;
      failed = u.failed;
      answered = [];
      recorded = none;
      fetcher = fetcher_of meta p u.generation;
    } in
    if_cases (OutcomeIsMarked r.hwm) (not u.transition)
      (advanced self_id log_end updated u.failed none) _
      (λ e. advanced-IsMarked self_id log_end updated u.failed none)
      (λ e.
        if_cases (OutcomeIsMarked r.hwm) (leads self_id p)
          (advanced self_id log_end updated u.failed (some p.leader_epoch)) still
          (λ t. advanced-IsMarked self_id log_end updated u.failed (some p.leader_epoch))
          (λ t. (omega arith, tt)))

abbrev FetchIsMarked : ℕ → (Replica × List Pending) × Option ErrorCode → Type 0
FetchIsMarked hwm fetch = IsMarked hwm fetch.0

replica_fetch-IsMarked :
    (r : Replica) (self_id follower_id leader_epoch offset log_end now : ℕ)
    → FetchIsMarked r.hwm (replica_fetch r self_id follower_id leader_epoch offset log_end now)
unfolding replica_fetch
replica_fetch-IsMarked r self_id follower_id leader_epoch offset log_end now =
    let accepted = accept r.state follower_id leader_epoch offset log_end now in
    elim accepted.1
      as (λ o. FetchIsMarked r.hwm (elim o [
        | some code ↦ ((r, []), some code)
        | none ↦ (advance_hwm (record r { state = accepted.0 }) self_id log_end, none)
      ])) [
        | some code ↦ (omega arith, tt)
        | none ↦ advance_hwm-IsMarked (record r { state = accepted.0 }) self_id log_end
      ]

settle-IsMarked :
    (r : Replica) (self_id log_end epoch : ℕ) (desired : List ℕ) (error : ErrorCode)
    → IsMarked r.hwm (settle r self_id log_end epoch desired error)
unfolding settle
settle-IsMarked r self_id log_end epoch desired error =
    if_cases (IsMarked r.hwm) (is_none error)
      (advance_hwm (record r { state = adopt r.state epoch desired }) self_id log_end) (r, [])
      (λ e. advance_hwm-IsMarked (record r { state = adopt r.state epoch desired }) self_id log_end)
      (λ e. (omega arith, tt))

Step-IsMarked :
    (self_id : ℕ) (r : Replica) (after : Replica × List Pending)
    → Step self_id r after
    → IsMarked r.hwm after
unfolding park
Step-IsMarked self_id _ _ (applied r now log_end meta p) =
    apply_partition-IsMarked self_id now log_end meta p r
Step-IsMarked self_id _ _ (parked r log_end base count reply) =
    advance_hwm-IsMarked
      (record r {
        state = record r.state {
          pending_all =
              r.state.pending_all
              ++ (record {
                last_offset = base + count - 1;
                base = base;
                count = count;
                reply = reply;
              })
                ∷ [];
        };
      })
      self_id log_end
Step-IsMarked self_id _ _ (fetched r follower_id leader_epoch offset log_end now) =
    replica_fetch-IsMarked r self_id follower_id leader_epoch offset log_end now
Step-IsMarked self_id _ _ (settled r log_end epoch desired error) =
    settle-IsMarked r self_id log_end epoch desired error
Step-IsMarked self_id _ _ (stopped r) = (omega arith, tt)

-- A run of steps, with all that it answers with Ok.
pub data Run (self_id : ℕ) : Replica → Replica → List Pending → Type 0 where
  done : (r : Replica) → Run self_id r r []
  next :
      (r end : Replica) (after : Replica × List Pending) (later : List Pending)
      → Step self_id r after
      → Run self_id after.0 end later
      → Run self_id r end (after.1 ++ later)

All-raise :
    (hwm hwm' : ℕ) (es : List Pending)
    → hwm ≤ hwm'
    → All (λ e. e.last_offset < hwm) es
    → All (λ e. e.last_offset < hwm') es
All-raise hwm hwm' [] h a = tt
All-raise hwm hwm' (e ∷ es) h (a, as') = (omega (arith, a, h), All-raise hwm hwm' es h as')

-- Over any run of metadata changes, produces with acks=all, fetches of followers, changes of the ISR
-- and a stop, the high-water mark of a replica does not go back, and at the end of the run it is
-- still above the last offset of each produce with acks=all that was answered with Ok on the way.
pub Run-covered :
    (self_id : ℕ) (r end : Replica) (answered : List Pending)
    → Run self_id r end answered
    → (r.hwm ≤ end.hwm) × All (λ e. e.last_offset < end.hwm) answered
Run-covered self_id _ _ _ (done r) = (omega arith, tt)
Run-covered self_id _ _ _ (next r end after later s run) =
    let first = Step-IsMarked self_id r after s in
    let rest = Run-covered self_id after.0 end later run in
    (
      omega (arith, first.0, rest.0),
      All-append (λ e. e.last_offset < end.hwm) after.1 later
          (All-raise after.0.hwm end.hwm after.1 rest.0 first.1) rest.1,
    )
