-- ===== src/Broker/Serve.antt =====
-- src/broker/mod.rs: what `dispatch` and the tasks that it spawns do to a replica, and what they answer.
pub mod Marks
mod Tests
use Prim.Native.Nat.{compare}
use replog.Prelude.{
  ℕ, ◌+◌, ◌-◌, Bool, true, false, not, ◌&&◌, ◌||◌, Option, none, some, List, [], ◌∷◌, ◌++◌, map,
  length, ltb, leb, ◌==◌, if◌then◌else◌,
}
use replog.Prelude.Maps.{get, insert}
use replog.Proto.Wire.{as_u32}
use replog.Proto.Codes.{Acks, ErrorCode}
use replog.Proto.Records.{FetchedRecord}
use replog.Proto.Response.{Response}
use replog.Storage.Record.{Record}
use replog.Broker.Replica.{Pending, ReplState, Replica, advance_hwm}

-- What becomes of a produce: nothing is sent, an answer is sent at once, or the records go to the
-- partition's thread: without a reply, with a reply that is passed on, or (acks=all) with a reply
-- after which the produce is parked.
pub data Route : Type 0 where
  dropped : Route
  refused : ErrorCode → Route
  append_no_reply : Route
  append_start : Acks → Route
  append_parked : Route

abbrev pub is_all : Acks → Bool
is_all Acks.all = true
is_all _ = false

-- An answer, which acks=0 does not get.
abbrev pub answer : Acks → ErrorCode → Route
answer Acks.none code = dropped
answer _ code = refused code

-- `precheck`, with the bound that the source takes `as u32`.
unfoldable pub precheck : ReplState → ℕ → Acks → ℕ → Option ErrorCode
precheck st min_insync_replicas acks leader_epoch =
    if not st.is_leader
    then some ErrorCode.not_leader
    else if not (leader_epoch == 0) && not (leader_epoch == st.epoch)
    then some ErrorCode.fenced_epoch
    else if is_all acks && ltb (as_u32 (length st.isr)) min_insync_replicas
    then some ErrorCode.not_enough_replicas
    else none

unfoldable pub accepted_route : Acks → Route
accepted_route Acks.none = append_no_reply
accepted_route Acks.written = append_start Acks.written
accepted_route Acks.durable = append_start Acks.durable
accepted_route Acks.all = append_parked

-- A produce in a cluster; `known` says whether the metadata has the topic.
unfoldable pub produce : Option Replica → Bool → ℕ → Acks → ℕ → Route
unfolding accepted_route
produce none known min_insync_replicas acks leader_epoch =
    answer acks (if known then ErrorCode.not_leader else ErrorCode.unknown_topic_or_partition)
produce (some r) known min_insync_replicas acks leader_epoch =
    elim (precheck r.state min_insync_replicas acks leader_epoch) [
      | some code ↦ answer acks code
      | none ↦ accepted_route acks
    ]

-- A produce without a cluster; `found` says whether there is such a partition.
unfoldable pub produce_standalone : Bool → Acks → ℕ → Route
produce_standalone found acks leader_epoch =
    if not (leader_epoch == 0)
    then answer acks ErrorCode.fenced_epoch
    else if not found
    then answer acks ErrorCode.unknown_topic_or_partition
    else elim acks [ Acks.none ↦ append_no_reply | a ↦ append_start a ]

-- The task of acks=all behind the reply Ok((base, count)) with a count above 0.
unfoldable pub park : Replica → ℕ → ℕ → ℕ → ℕ → ℕ → Replica × List Pending
park r self_id log_end base count reply =
    let entry : Pending = record {
      last_offset = base + count - 1;
      base = base;
      count = count;
      reply = reply;
    } in
    let st : ReplState = record r.state { pending_all = r.state.pending_all ++ entry ∷ [] } in
    advance_hwm (record r { state = st }) self_id log_end

-- When the follower was caught up, after a fetch at `offset`.
unfoldable pub caught_up : ReplState → ℕ → ℕ → ℕ → ℕ → ℕ
caught_up st follower_id offset log_end now =
    if leb log_end offset
    then now
    else elim (get compare st.match_offsets follower_id) [ none ↦ st.leader_since | some m ↦ m.1 ]

-- The block under the lock of a replica fetch: the state, and the error.
unfoldable pub accept : ReplState → ℕ → ℕ → ℕ → ℕ → ℕ → ReplState × Option ErrorCode
unfolding caught_up
accept st follower_id leader_epoch offset log_end now =
    if not st.is_leader
    then (st, some ErrorCode.not_leader)
    else if not (leader_epoch == st.epoch)
    then (st, some ErrorCode.fenced_epoch)
    else (
      record st {
        match_offsets =
            insert compare st.match_offsets follower_id
              (offset, caught_up st follower_id offset log_end now);
      },
      none,
    )

-- The arm for a replica fetch, up to the task that reads: the replica, the parked produces answered
-- with Ok, and the error.
unfoldable pub replica_fetch :
    Replica → ℕ → ℕ → ℕ → ℕ → ℕ → ℕ → (Replica × List Pending) × Option ErrorCode
replica_fetch r self_id follower_id leader_epoch offset log_end now =
    let accepted = accept r.state follower_id leader_epoch offset log_end now in
    elim accepted.1 [
      | some code ↦ ((r, []), some code)
      | none ↦ (advance_hwm (record r { state = accepted.0 }) self_id log_end, none)
    ]

unfoldable pub fetched_record : Record → FetchedRecord
fetched_record r = record {
  offset = r.offset;
  timestamp_ms = r.timestamp_ms;
  key = r.key;
  value = r.value;
}

-- `take_while(|r| r.offset < hwm)`
unfoldable pub below : ℕ → List Record → List Record
below hwm [] = []
below hwm (r ∷ rs) = let rest = below hwm rs in if ltb r.offset hwm then r ∷ rest else []

-- What a read of the partition gives: (log_start, next_offset, records), or an error.
pub data Read : Type 0 where
  read_ok : ℕ → ℕ → List Record → Read
  read_err : ErrorCode → Read

-- A round of the loop of `handle_fetch_hwm`; `none` waits for the mark. `log_read` is the read at
-- `offset`.
unfoldable pub fetch_hwm : ℕ → ℕ → ℕ → Read → Option Response
unfolding fetched_record
fetch_hwm offset hwm log_end log_read =
    if ltb log_end offset
    then some (Response.fetch ErrorCode.offset_out_of_range 0 hwm [])
    else if ltb offset hwm
    then elim log_read [
      | read_ok log_start next records ↦
          some
            (Response.fetch ErrorCode.none log_start hwm (map fetched_record (below hwm records)))
      | read_err code ↦ some (Response.fetch code 0 hwm [])
    ]
    else none

-- The answer after a wait that ended at the deadline.
unfoldable pub fetch_timeout : ℕ → Response
fetch_timeout hwm = Response.fetch ErrorCode.none 0 hwm []

-- A round of the loop of `handle_fetch`, before the deadline or at it; `none` waits for the log.
unfoldable pub fetch : Bool → Read → Option Response
unfolding fetched_record
fetch waits (read_err code) = some (Response.fetch code 0 0 [])
fetch waits (read_ok log_start next records) =
    if length records == 0 && waits
    then none
    else some (Response.fetch ErrorCode.none log_start next (map fetched_record records))

-- A round of the loop of `handle_replica_fetch`.
unfoldable pub fetch_replica : Bool → ℕ → ℕ → Read → Option Response
unfolding fetched_record
fetch_replica waits leader_epoch hwm (read_err code) =
    some (Response.replica_fetch code leader_epoch 0 0 [])
fetch_replica waits leader_epoch hwm (read_ok log_start next records) =
    if length records == 0 && waits
    then none
    else some
        (Response.replica_fetch ErrorCode.none leader_epoch next hwm (map fetched_record records))
