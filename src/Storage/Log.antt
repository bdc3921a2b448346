-- ===== src/Storage/Log.antt =====
-- src/storage/log.rs: appending to the log of a partition. `now` is the time of `Instant::now()` in
-- milliseconds.
pub mod Durable
pub mod Suffix
pub mod Open
pub mod Ends
pub mod Bounds
mod Tests
use Prim.Native.Nat.{compare}
use replog.Prelude.{
  ℕ, zero, suc, ◌+◌, ◌-◌, ◌≡◌, Bool, true, false, not, ◌&&◌, ◌||◌, Option, none, some, List, [],
  ◌∷◌, ltb, leb, ◌==◌, if◌then◌else◌,
}
use replog.Prelude.Int.{ℤ}
use replog.Prelude.Maps.{insert}
use replog.Storage.Record.{Record, encoded_len}
use replog.Storage.Config.{
  FsyncPolicy, always, os, batch, LogConfig, Result, ok, err, record_too_large, invalid_layout,
  replicated_append,
}
use replog.Storage.Segment
use replog.Storage.Segment.{Segment}

pub record Log : Type 0 where
  pub closed : List (ℕ × Segment)
  pub active : Segment
  pub durable_offset : Option ℕ
  pub dirty_bytes : ℕ
  pub last_flush : ℕ

pub record AppendInfo : Type 0 where
  pub offset : ℕ
  pub durable_offset : Option ℕ

-- `checked_sub(1)`
unfoldable pub checked_pred : ℕ → Option ℕ
checked_pred zero = none
checked_pred (suc n) = some n

unfoldable pub next_offset : Log → ℕ
next_offset log = log.active.next_offset

unfoldable pub flush : Log → ℕ → Log
flush log now = record log {
  durable_offset = checked_pred log.active.next_offset;
  dirty_bytes = 0;
  last_flush = now;
}

unfoldable pub roll : Log → ℕ → Log
unfolding flush
roll log now =
    let flushed = flush log now in
    record flushed {
      closed = insert compare flushed.closed flushed.active.base_offset flushed.active;
      active = Segment.create flushed.active.next_offset;
    }

module _ (crc32 : List ℕ → ℕ) (config : LogConfig) where
  -- Whether `append_record` flushes.
  unfoldable pub flush_due : FsyncPolicy → Log → ℕ → Bool
  flush_due always log now = true
  flush_due (batch max_bytes max_ms) log now =
      leb max_bytes log.dirty_bytes || leb max_ms (now - log.last_flush)
  flush_due os log now = false

  -- The append to the active segment, and the flush that the policy asks for.
  unfoldable pub write_record : Log → ℕ → Record → Log × AppendInfo
  unfolding flush flush_due
  write_record log now r =
      let written = Segment.append crc32 config log.active r in
      let appended : Log = record log {
        active = written.0;
        dirty_bytes = log.dirty_bytes + written.1;
      } in
      let after = if flush_due config.fsync appended now then flush appended now else appended in
      (after, record { offset = r.offset; durable_offset = after.durable_offset })

  unfoldable pub append_record : Log → ℕ → Record → Result (Log × AppendInfo)
  append_record log now r =
      let n = encoded_len r in
      let full = ltb 0 log.active.size && ltb config.max_segment_bytes (log.active.size + n) in
      if ltb config.max_record_bytes n
      then err (record_too_large n)
      else ok (write_record (if full then roll log now else log) now r)

  unfoldable pub append : Log → ℕ → ℤ → Option (List ℕ) → List ℕ → Result (Log × AppendInfo)
  append log now now_ms key value =
      append_record log now (record {
        offset = log.active.next_offset;
        timestamp_ms = now_ms;
        key = key;
        value = value;
      })

  unfoldable pub append_replicated : Log → ℕ → Record → Result (Log × AppendInfo)
  append_replicated log now r =
      if not (r.offset == next_offset log)
      then err (invalid_layout (replicated_append r.offset (next_offset log)))
      else append_record log now r
