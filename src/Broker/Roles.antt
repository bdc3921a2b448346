-- ===== src/Broker/Roles.antt =====
-- src/broker/mod.rs: what a broker does with the metadata of the controller. The end of a partition's
-- log is the value of its thread's watch channel, and an argument here; `now` is `Instant::now()`.
pub mod Apply
pub mod Agrees
pub mod Again
mod Tests
use replog.Prelude.{
  ℕ, ◌+◌, ◌^◌, Bool, true, false, not, ◌&&◌, Option, none, some, List, [], ◌∷◌, ◌++◌, ltb, ◌==◌,
  if◌then◌else◌,
}
use replog.Prelude.Int.{ℤ, pos, negsuc, to_word}
use replog.Prelude.Maps.{same}
use replog.Proto.Wire.{as_i32}
use replog.Proto.Meta.{PartitionMeta, BrokerAddr, ClusterMeta}
use replog.Broker.Replica.{Pending, ReplState, Replica, advance_hwm}

-- `==` of two integers, and `leader >= 0`.
unfoldable pub same_int : ℤ → ℤ → Bool
same_int (pos m) (pos n) = m == n
same_int (pos m) (negsuc n) = false
same_int (negsuc m) (pos n) = false
same_int (negsuc m) (negsuc n) = m == n

unfoldable pub is_some_leader : ℤ → Bool
is_some_leader (pos n) = true
is_some_leader (negsuc n) = false

unfoldable pub same_role : Bool → Bool → Bool
same_role true b = b
same_role false b = not b

-- `becoming_leader`
unfoldable pub leads : ℕ → PartitionMeta → Bool
leads self_id p = same_int p.leader (as_i32 self_id)

-- What the block under the lock leaves: the state, the acks to fail, (transition, generation).
pub record Update : Type 0 where
  pub state : ReplState
  pub failed : List Pending
  pub transition : Bool
  pub generation : ℕ

-- The arm for an unchanged role and epoch.
unfoldable pub keep_role : PartitionMeta → ReplState → Update
keep_role p st =
    let kept : ReplState = record st { isr = if not (same st.isr p.isr) then p.isr else st.isr } in
    let respawn = not st.is_leader && (not st.fetcher_alive && is_some_leader p.leader) in
    if respawn
    then record {
      state = record kept { fetcher_generation = st.fetcher_generation + 1; fetcher_alive = true };
      failed = [];
      transition = true;
      generation = st.fetcher_generation + 1;
    }
    else record {
      state = kept;
      failed = [];
      transition = false;
      generation = st.fetcher_generation;
    }

unfoldable pub become_leader : ℕ → PartitionMeta → ReplState → Update
become_leader now p st = record {
  state = record st {
    epoch = p.leader_epoch;
    replicas = p.replicas;
    isr = p.isr;
    is_leader = true;
    fetcher_generation = st.fetcher_generation + 1;
    match_offsets = [];
    leader_since = now;
    fetcher_alive = false;
  };
  failed = [];
  transition = true;
  generation = st.fetcher_generation + 1;
}

unfoldable pub become_follower : PartitionMeta → ReplState → Update
become_follower p st = record {
  state = record st {
    epoch = p.leader_epoch;
    replicas = p.replicas;
    isr = p.isr;
    is_leader = false;
    fetcher_generation = st.fetcher_generation + 1;
    pending_all = [];
    fetcher_alive = is_some_leader p.leader;
  };
  failed = st.pending_all;
  transition = true;
  generation = st.fetcher_generation + 1;
}

unfoldable pub unchanged : ℕ → PartitionMeta → ReplState → Bool
unchanged self_id p st = st.epoch == p.leader_epoch && same_role st.is_leader (leads self_id p)

-- The block under the lock.
unfoldable pub update : ℕ → ℕ → PartitionMeta → ReplState → Update
update self_id now p st =
    if unchanged self_id p st
    then keep_role p st
    else if leads self_id p
    then become_leader now p st
    else become_follower p st

-- `find` over the addresses.
unfoldable pub find_addr : List BrokerAddr → ℕ → Option (List ℕ)
find_addr [] id = none
find_addr (b ∷ bs) id = if b.0 == id then some b.1 else find_addr bs id

-- What the metadata of one partition does to its replica: the parked produces answered with NotLeader
-- and with Ok, the epoch sent to the partition's thread, and the fetcher that is spawned (leader
-- epoch, generation, address).
pub record Outcome : Type 0 where
  pub replica : Replica
  pub failed : List Pending
  pub answered : List Pending
  pub recorded : Option ℕ
  pub fetcher : Option (ℕ × (ℕ × List ℕ))

-- The fetcher for the leader's address.
unfoldable pub fetcher_of : ClusterMeta → PartitionMeta → ℕ → Option (ℕ × (ℕ × List ℕ))
fetcher_of meta p generation =
    if is_some_leader p.leader
    then elim (find_addr (meta.peers ++ meta.brokers) (to_word (2 ^ 31) p.leader)) [
      | none ↦ none
      | some addr ↦ some (p.leader_epoch, (generation, addr))
    ]
    else none

-- The mark is advanced.
unfoldable pub advanced : ℕ → ℕ → Replica → List Pending → Option ℕ → Outcome
advanced self_id log_end replica failed recorded =
    let after = advance_hwm replica self_id log_end in
    record {
      replica = after.0;
      failed = failed;
      answered = after.1;
      recorded = recorded;
      fetcher = none;
    }

-- The body of the loop of `apply_metadata`, on the replica of the partition.
unfoldable pub apply_partition : ℕ → ℕ → ℕ → ClusterMeta → PartitionMeta → Replica → Outcome
apply_partition self_id now log_end meta p replica =
    let u = update self_id now p replica.state in
    let updated : Replica = record replica { state = u.state } in
    if not u.transition
    then advanced self_id log_end updated u.failed none
    else if leads self_id p
    then advanced self_id log_end updated u.failed (some p.leader_epoch)
    else record {
      replica = updated;
      failed = u.failed;
      answered = [];
      recorded = none;
      fetcher = fetcher_of meta p u.generation;
    }

-- A broker that stops: the fetchers are invalid, and the parked produces are answered with NotLeader.
unfoldable pub invalidate : ReplState → ReplState × List Pending
invalidate st = (
  record st {
    fetcher_generation = st.fetcher_generation + 1;
    fetcher_alive = false;
    is_leader = false;
    pending_all = [];
  },
  st.pending_all,
)
