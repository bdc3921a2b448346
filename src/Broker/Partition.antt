-- ===== src/Broker/Partition.antt =====
-- src/broker/partition.rs: the thread that owns the log of a partition. A reply channel is its number,
-- and `now` is the one reading of the clock, in milliseconds, that serves a command; `now_ms` is the
-- time of the new records. `watched` is the value of the watch channel.
pub mod Run
pub mod Appends
pub mod Covered
pub mod Promise
pub mod Queue
pub mod Liveness
pub mod Ends
mod Tests
use replog.Prelude.{
  ℕ, zero, suc, ◌+◌, ◌-◌, ◌^◌, Bool, true, false, not, ◌&&◌, ◌||◌, Option, none, some, List, [],
  ◌∷◌, ◌++◌, ltb, leb, ◌==◌, if◌then◌else◌,
}
use replog.Prelude.Int.{ℤ}
use replog.Proto.Wire.{as_u32}
use replog.Proto.Codes.{Acks, ErrorCode}
use replog.Storage.Record.{Record}
use replog.Storage.Config.{
  FsyncPolicy, always, os, batch, LogConfig, StorageError, corrupt_at, offset_out_of_range,
  record_too_large, invalid_layout, invalid_config, Result, ok, err, panicked, stuck, ◌>>=◌,
}
use replog.Storage.Epoch
use replog.Storage.Epoch.{EpochCheckpoint}
use replog.Storage.Log
use replog.Storage.Log.{Log, next_offset}

-- A record of a produce: key and value.
abbrev pub NewRecord : Type 0
NewRecord = Option (List ℕ) × List ℕ

pub data Cmd : Type 0 where
  -- records, acks, reply
  append : List NewRecord → Acks → Option ℕ → Cmd
  -- offset, max_bytes, reply
  read : ℕ → ℕ → ℕ → Cmd
  -- records, reply
  append_replicated : List Record → ℕ → Cmd
  -- offset, reply
  truncate_to : ℕ → ℕ → Cmd
  -- epoch
  record_epoch : ℕ → Cmd
  -- reply
  epoch_status : ℕ → Cmd
  -- epoch, reply
  epoch_end_for : ℕ → ℕ → Cmd

-- What a reply channel carries: Ok((base, count)) of an append, a ReadOk, a log end (also the end of an
-- epoch), an epoch with the log end, or an error.
pub data Reply : Type 0 where
  appended : ℕ → ℕ → Reply
  -- log_start, next_offset, records
  records_read : ℕ → ℕ → List Record → Reply
  log_end : ℕ → Reply
  epoch_and_end : ℕ → ℕ → Reply
  failed : ErrorCode → Reply

pub record Pending : Type 0 where
  pub last_offset : ℕ
  pub base_offset : ℕ
  pub count : ℕ
  pub reply : ℕ

-- The variables of `run`.
pub record Thread : Type 0 where
  pub log : Log
  pub epochs : EpochCheckpoint
  pub pending : List Pending
  pub dirty_since : Option ℕ
  pub watched : ℕ

-- The replies sent, each with its channel.
abbrev pub Sent : Type 0
Sent = List (ℕ × Reply)

-- The configuration of the log that `spawn` opens.
unfoldable pub log_policy : FsyncPolicy → FsyncPolicy
log_policy always = always
log_policy os = os
log_policy (batch max_bytes max_ms) = batch max_bytes (2 ^ 64 - 1)

unfoldable pub log_config : LogConfig → LogConfig
unfolding log_policy
log_config config = record config { fsync = log_policy config.fsync }

-- `Some(d)` with `d >= offset`.
unfoldable pub covers : Option ℕ → ℕ → Bool
covers none offset = false
covers (some durable) offset = leb offset durable

unfoldable pub is_dirty : Log → Bool
is_dirty log =
    let next = next_offset log in
    ltb 0 next && not (elim log.durable_offset [ none ↦ false | some d ↦ d == next - 1 ])

unfoldable pub map_storage_err : StorageError → ErrorCode
map_storage_err (offset_out_of_range offset) = ErrorCode.offset_out_of_range
map_storage_err (record_too_large n) = ErrorCode.malformed_request
map_storage_err (corrupt_at offset position reason) = ErrorCode.storage
map_storage_err (invalid_layout reason) = ErrorCode.storage
map_storage_err (invalid_config reason) = ErrorCode.storage

-- The answers to the entries at the front that `durable` covers, and the entries left.
unfoldable pub drain : Option ℕ → List Pending → Sent × List Pending
unfolding covers
drain durable [] = ([], [])
drain durable (p ∷ ps) =
    let rest = drain durable ps in
    if covers durable p.last_offset
    then ((p.reply, appended p.base_offset p.count) ∷ rest.0, rest.1)
    else ([], p ∷ ps)

unfoldable pub drain_pending : Thread → Thread × Sent
drain_pending t =
    let drained = drain t.log.durable_offset t.pending in
    (record t { pending = drained.1 }, drained.0)

-- `dirty_since.or_else(|| Some(Instant::now()))` on a dirty log.
unfoldable pub mark_dirty : Log → Option ℕ → ℕ → Option ℕ
mark_dirty log dirty_since now =
    if is_dirty log then elim dirty_since [ none ↦ some now | some since ↦ some since ] else none

-- `get_or_insert`
unfoldable pub or_insert : Option ℕ → ℕ → Option ℕ
or_insert none n = some n
or_insert (some m) n = some m

-- What the loop over the records of an append leaves.
pub record Batch : Type 0 where
  pub log : Log
  pub base_offset : Option ℕ
  pub count : ℕ
  pub error : Option ErrorCode

-- The state of the loop before the first record.
abbrev pub no_appends : Log → Batch
no_appends log = record { log = log; base_offset = none; count = 0; error = none }

module _ (crc32 : List ℕ → ℕ) (config : LogConfig) where
  unfoldable pub append_all : Batch → ℕ → ℤ → List NewRecord → Result Batch
  unfolding or_insert
  append_all b now now_ms [] = ok b
  append_all b now now_ms (r ∷ rs) =
      elim (Log.append crc32 (log_config config) b.log now now_ms r.0 r.1) [
        | ok done ↦
            append_all
              (record {
                log = done.0;
                base_offset = or_insert b.base_offset done.1.offset;
                count = as_u32 (b.count + 1);
                error = none;
              })
              now now_ms rs
        | err e ↦ ok (record b { error = some (map_storage_err e) })
        | panicked ↦ panicked
        | stuck ↦ stuck
      ]

  -- The loop of `AppendReplicated`, with its error.
  unfoldable pub replicate_all : Log → ℕ → List Record → Result (Log × Option ErrorCode)
  replicate_all log now [] = ok (log, none)
  replicate_all log now (r ∷ rs) =
      elim (Log.append_replicated crc32 (log_config config) log now r) [
        | ok done ↦ replicate_all done.0 now rs
        | err e ↦ ok (log, some (map_storage_err e))
        | panicked ↦ panicked
        | stuck ↦ stuck
      ]
