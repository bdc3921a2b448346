-- ===== src/Broker/Fetcher.antt =====
-- The follower's side of src/broker/cluster.rs: `run_fetcher`. What the connection returns is data, and
-- `current` is what `is_current` says when it is asked.
use replog.Prelude.{
  ℕ, ◌+◌, min, Bool, true, false, not, ◌&&◌, Option, none, some, List, [], ◌∷◌, map, length, ltb,
  ◌==◌, if◌then◌else◌,
}
use replog.Proto.Records.{FetchedRecord}
use replog.Storage.Record.{Record}
use replog.Broker.Replica.{ReplState}
pub mod Claims

-- `is_current`: the replica follows, and no other fetcher was started.
unfoldable pub is_current : ReplState → ℕ → Bool
is_current st generation = not st.is_leader && st.fetcher_generation == generation

-- The answer to EpochCheck: its end offset, another answer, or an error of the connection.
pub data Check : Type 0 where
  checked : ℕ → Check
  check_refused check_failed : Check

-- What the reconciliation does: it goes on, behind a cut of the log at an offset where there is one,
-- or the fetcher ends, with or without a ping of the refresh channel.
pub data Reconcile : Type 0 where
  proceed : Option ℕ → Reconcile
  ended : Bool → Reconcile

unfoldable pub reconcile : Bool → ℕ → Check → Reconcile
reconcile current local_end (checked end_offset) =
    let target = min end_offset local_end in
    if not current
    then ended false
    else if ltb target local_end
    then proceed (some target)
    else proceed none
reconcile current local_end check_refused = ended true
reconcile current local_end check_failed = ended true

-- The answer to ReplicaFetch: (leader_epoch, records), a response with an error, another response, a
-- connection that is closed or failed, or another error.
pub data Answer : Type 0 where
  fetched : ℕ → List FetchedRecord → Answer
  refused unexpected disconnected failed : Answer

-- What a round of the loop does: it sends the partition's thread an epoch and records, and goes on with
-- the local epoch; or the fetcher ends.
pub data Round : Type 0 where
  continues : Option ℕ → List Record → ℕ → Round
  stops : Bool → Round

unfoldable pub stored : FetchedRecord → Record
stored r = record { offset = r.offset; timestamp_ms = r.timestamp_ms; key = r.key; value = r.value }

unfoldable pub fetch_round : Bool → ℕ → Answer → Round
unfolding stored
fetch_round current local_epoch (fetched leader_epoch records) =
    if not current
    then stops false
    else if ltb local_epoch leader_epoch
    then continues (some leader_epoch) (map stored records) leader_epoch
    else continues none (map stored records) local_epoch
fetch_round current local_epoch refused = stops true
fetch_round current local_epoch unexpected = stops false
fetch_round current local_epoch disconnected = stops true
fetch_round current local_epoch failed = stops false

-- The end of `run_fetcher`.
unfoldable pub finish_fetcher : ReplState → ℕ → ReplState
finish_fetcher st generation =
    if st.fetcher_generation == generation then record st { fetcher_alive = false } else st
