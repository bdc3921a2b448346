-- ===== src/Broker/Partition/Run.antt =====
-- src/broker/partition.rs: the loop `run`, one command or one timeout a round. A panic ends the thread.
use replog.Prelude.{
  ℕ, ◌-◌, Bool, true, Option, none, some, List, [], ◌∷◌, ◌++◌, ltb, leb, if◌then◌else◌,
}
use replog.Prelude.Int.{ℤ}
use replog.Proto.Codes.{Acks, ErrorCode}
use replog.Storage.Record.{Record}
use replog.Storage.Config.{
  FsyncPolicy, always, os, batch, LogConfig, Result, ok, err, panicked, stuck, ◌>>=◌,
}
use replog.Storage.Epoch
use replog.Storage.Epoch.{EpochCheckpoint}
use replog.Storage.Log.{Log, next_offset, flush}
use replog.Storage.Log.Suffix.{read, start_offset, truncate_suffix}
use replog.Broker.Partition.{
  Cmd, Reply, appended, records_read, log_end, epoch_and_end, failed, Thread, Sent, log_config,
  covers, map_storage_err, drain_pending, mark_dirty, Batch, no_appends, append_all, replicate_all,
}

-- What `recv_timeout` returns.
pub data Event : Type 0 where
  received : Cmd → Event
  timed_out disconnected : Event

-- Whether an append is answered at once.
unfoldable pub acked_now : FsyncPolicy → Acks → Log → ℕ → Bool
acked_now policy Acks.none log last = true
acked_now policy Acks.written log last = true
acked_now os Acks.durable log last = true
acked_now os Acks.all log last = true
acked_now always Acks.durable log last = covers log.durable_offset last
acked_now always Acks.all log last = covers log.durable_offset last
acked_now (batch max_bytes max_ms) Acks.durable log last = covers log.durable_offset last
acked_now (batch max_bytes max_ms) Acks.all log last = covers log.durable_offset last

-- The answer to an append that wrote its records, or its place in the queue.
unfoldable pub acknowledge : FsyncPolicy → Thread → Acks → ℕ → ℕ → ℕ → Thread × Sent
acknowledge policy t acks base count reply =
    let last = next_offset t.log - 1 in
    if acked_now policy acks t.log last then (t, (reply, appended base count) ∷ []) else (
      record t {
        pending =
            t.pending
            ++ (record { last_offset = last; base_offset = base; count = count; reply = reply })
              ∷ [];
      },
      [],
    )

-- The match over (error, base_offset) where there is a reply channel.
unfoldable pub answer : FsyncPolicy → Thread → Acks → Batch → Option ℕ → Thread × Sent
answer policy t acks b none = (t, [])
answer policy t acks b (some reply) = elim b.error [
  | some code ↦ (t, (reply, failed code) ∷ [])
  | none ↦ elim b.base_offset [
    | none ↦ (t, (reply, appended (next_offset t.log) 0) ∷ [])
    | some base ↦ acknowledge policy t acks base b.count reply
  ]
]

-- The end of the arm for an append.
unfoldable pub finish_append : FsyncPolicy → Thread → ℕ → Acks → Option ℕ → Batch → Thread × Sent
finish_append policy t now acks reply b =
    let written : Thread = record t {
      log = b.log;
      watched = next_offset b.log;
      dirty_since = mark_dirty b.log t.dirty_since now;
    } in
    let answered = answer policy written acks b reply in
    let drained = drain_pending answered.0 in (drained.0, answered.1 ++ drained.1)

unfoldable pub flush_all : Thread → ℕ → Thread × Sent
flush_all t now = drain_pending (record t { log = flush t.log now; dirty_since = none })

-- The new end of the log, or the error.
unfoldable pub end_or : Option ErrorCode → ℕ → Reply
end_or none next = log_end next
end_or (some code) next = failed code

unfoldable pub finish_replicated : Thread → ℕ → ℕ → Log × Option ErrorCode → Thread × Sent
unfolding end_or
finish_replicated t now reply (log, error) = (
  record t { log = log; watched = next_offset log; dirty_since = mark_dirty log t.dirty_since now },
  (reply, end_or error (next_offset log)) ∷ [],
)

unfoldable pub with_log : Thread → Log → EpochCheckpoint → Thread
with_log t log epochs = record t { log = log; epochs = epochs; watched = next_offset log }

unfoldable pub finish_truncate : Thread → ℕ → ℕ → Log × Result (Unit {0}) → Result (Thread × Sent)
unfolding with_log
finish_truncate t offset reply (log, ok done) =
    ok (with_log t log (Epoch.truncate_to t.epochs offset), (reply, log_end (next_offset log)) ∷ [])
finish_truncate t offset reply (log, err e) =
    ok (with_log t log t.epochs, (reply, failed (map_storage_err e)) ∷ [])
finish_truncate t offset reply (log, panicked) = panicked
finish_truncate t offset reply (log, stuck) = stuck

unfoldable pub record_epoch : Thread → ℕ → Thread
record_epoch t epoch =
    if ltb (Epoch.current_epoch t.epochs.entries) epoch
    then elim (Epoch.append t.epochs epoch (next_offset t.log)) [
      | Epoch.Result.ok epochs ↦ record t { epochs = epochs }
      | Epoch.Result.err e ↦ t
    ]
    else t

unfoldable pub read_reply : Thread → Result (List Record) → Result Reply
read_reply t (ok records) = ok (records_read (start_offset t.log) (next_offset t.log) records)
read_reply t (err e) = ok (failed (map_storage_err e))
read_reply t panicked = panicked
read_reply t stuck = stuck

-- The arm for a timeout of the channel.
unfoldable pub timeout : FsyncPolicy → Thread → ℕ → Thread × Sent
timeout always t now = (t, [])
timeout os t now = (t, [])
timeout (batch max_bytes max_ms) t now = elim t.dirty_since [
  | none ↦ (t, [])
  | some since ↦ if leb max_ms (now - since) then flush_all t now else (t, [])
]

module _ (crc32 : List ℕ → ℕ) (config : LogConfig) where
  -- The arm for a command.
  unfoldable pub handle : Thread → ℕ → ℤ → Cmd → Result (Thread × Sent)
  unfolding read_reply
  handle t now now_ms (Cmd.append records acks reply) =
      append_all crc32 config (no_appends t.log) now now_ms records >>= λ b.
      ok (finish_append config.fsync t now acks reply b)
  handle t now now_ms (Cmd.read offset max_bytes reply) =
      read_reply t (read crc32 (log_config config) t.log offset max_bytes) >>= λ r.
      ok (t, (reply, r) ∷ [])
  handle t now now_ms (Cmd.append_replicated records reply) =
      replicate_all crc32 config t.log now records >>= λ done.
      ok (finish_replicated t now reply done)
  handle t now now_ms (Cmd.truncate_to offset reply) =
      finish_truncate t offset reply (truncate_suffix crc32 (log_config config) t.log offset)
  handle t now now_ms (Cmd.record_epoch epoch) = ok (record_epoch t epoch, [])
  handle t now now_ms (Cmd.epoch_status reply) =
      ok (t, (reply, epoch_and_end (Epoch.current_epoch t.epochs.entries) (next_offset t.log)) ∷ [])
  handle t now now_ms (Cmd.epoch_end_for epoch reply) =
      ok
        (t, (reply, log_end (Epoch.end_offset_for t.epochs.entries epoch (next_offset t.log))) ∷ [])

  -- One round of the loop; the one that finds the channel closed is the last.
  unfoldable pub round : Thread → ℕ → ℤ → Event → Result (Thread × Sent)
  round t now now_ms (received cmd) = handle t now now_ms cmd
  round t now now_ms timed_out = ok (timeout config.fsync t now)
  round t now now_ms disconnected = ok (flush_all t now)
