-- ===== src/Broker/Partition/Promise.antt =====
-- What the answers of a partition's thread promise about the disk.
use replog.Prelude.{ℕ, ◌≡◌, ◌≢◌, inr, refl, sym, subst, Option, none, some, List, arith}
use replog.Prelude.Int.{ℤ}
use replog.Proto.Codes.{ErrorCode}
use replog.Storage.Config.{os, LogConfig, Result, ok, err, panicked, stuck}
use replog.Storage.Config.Returns.{Returns, Returns-ok, Returns-bind, Returns-total}
use replog.Storage.Log.{Log, next_offset}
use replog.Storage.Record.{Record}
use replog.Storage.Log.Suffix.{read, truncate_suffix}
use replog.Broker.Partition.{Cmd, Thread, Sent, no_appends, append_all, replicate_all, log_config}
use replog.Broker.Partition.Run.{
  Event, received, timed_out, disconnected, handle, round, read_reply, end_or, finish_replicated,
  finish_truncate, with_log, record_epoch,
}
use replog.Broker.Partition.Appends.{IsBatch, append_all-IsBatch}
use replog.Broker.Partition.Covered.{
  IsCovered, IsParked, IsSmall, IsHonest, timeout-IsHonest, flush_all-IsHonest,
  finish_append-IsHonest,
}

read_reply-IsCovered :
    (durable : Option ℕ) (t : Thread) (m : Result (List Record))
    → Returns (IsCovered durable) (read_reply t m)
unfolding read_reply
read_reply-IsCovered durable t (ok records) = tt
read_reply-IsCovered durable t (err e) = tt
read_reply-IsCovered durable t panicked = tt
read_reply-IsCovered durable t stuck = tt

end_or-IsCovered :
    (durable : Option ℕ) (error : Option ErrorCode) (next : ℕ)
    → IsCovered durable (end_or error next)
unfolding end_or
end_or-IsCovered durable none next = tt
end_or-IsCovered durable (some code) next = tt

finish_truncate-IsHonest :
    (event : Event) (t : Thread) (offset reply : ℕ) (cut : Log × Result (Unit {0}))
    → IsParked t.pending
    → Returns (IsHonest event) (finish_truncate t offset reply cut)
unfolding finish_truncate with_log
finish_truncate-IsHonest event t offset reply (log, ok done) h = ((inr tt, tt), h)
finish_truncate-IsHonest event t offset reply (log, err e) h = ((inr tt, tt), h)
finish_truncate-IsHonest event t offset reply (log, panicked) h = tt
finish_truncate-IsHonest event t offset reply (log, stuck) h = tt

record_epoch-pending : (t : Thread) (epoch : ℕ) → (record_epoch t epoch).pending ≡ t.pending
unfolding record_epoch
record_epoch-pending t epoch = ground arith

module _ (crc32 : List ℕ → ℕ) (config : LogConfig) where
  handle-IsHonest :
      (t : Thread) (now : ℕ) (now_ms : ℤ) (cmd : Cmd)
      → config.fsync ≢ os
      → IsParked t.pending
      → IsSmall (received cmd)
      → Returns (IsHonest (received cmd)) (handle crc32 config t now now_ms cmd)
  unfolding handle finish_replicated
  handle-IsHonest t now now_ms (Cmd.append records acks reply) flushing parked small =
      Returns-bind (IsHonest (received (Cmd.append records acks reply)))
        (IsBatch t.log.active.next_offset)
        (append_all crc32 config (no_appends t.log) now now_ms records) _
        (append_all-IsBatch crc32 config t.log.active.next_offset (no_appends t.log) now now_ms
          records (omega arith, refl) (omega (arith, small)))
        (λ b h.
          finish_append-IsHonest config.fsync t now t.log.active.next_offset records acks reply b
            flushing parked h)
  handle-IsHonest t now now_ms (Cmd.read offset max_bytes reply) flushing parked small =
      Returns-bind (IsHonest (received (Cmd.read offset max_bytes reply)))
        (IsCovered t.log.durable_offset)
        (read_reply t (read crc32 (log_config config) t.log offset max_bytes)) _
        (read_reply-IsCovered t.log.durable_offset t
          (read crc32 (log_config config) t.log offset max_bytes))
        (λ r h. ((inr h, tt), parked))
  handle-IsHonest t now now_ms (Cmd.append_replicated records reply) flushing parked small =
      Returns-bind (IsHonest (received (Cmd.append_replicated records reply))) (λ done. Unit {0})
        (replicate_all crc32 config t.log now records) _
        (Returns-total (λ done. Unit {0}) (replicate_all crc32 config t.log now records)
          (λ done. tt))
        (λ done h. ((inr (end_or-IsCovered _ done.1 (next_offset done.0)), tt), parked))
  handle-IsHonest t now now_ms (Cmd.truncate_to offset reply) flushing parked small =
      finish_truncate-IsHonest (received (Cmd.truncate_to offset reply)) t offset reply
        (truncate_suffix crc32 (log_config config) t.log offset) parked
  handle-IsHonest t now now_ms (Cmd.record_epoch epoch) flushing parked small =
      (tt, subst IsParked (sym (record_epoch-pending t epoch)) parked)
  handle-IsHonest t now now_ms (Cmd.epoch_status reply) flushing parked small =
      ((inr tt, tt), parked)
  handle-IsHonest t now now_ms (Cmd.epoch_end_for epoch reply) flushing parked small =
      ((inr tt, tt), parked)

  -- Under a policy that flushes, whatever command or timeout a round of the thread serves, each positive
  -- answer that it sends is one of these: to an append that brought no record, to this round's own append
  -- where that asked for less than stable storage, or to an append whose last record the durable
  -- offset covers when the answer is sent. The queue keeps the last offset of what it holds.
  pub round-IsHonest :
      (t : Thread) (now : ℕ) (now_ms : ℤ) (event : Event) (after : Thread × Sent)
      → config.fsync ≢ os
      → IsParked t.pending
      → IsSmall event
      → round crc32 config t now now_ms event ≡ ok after
      → IsHonest event after
  unfolding round
  round-IsHonest t now now_ms event after flushing parked small e =
      Returns-ok (IsHonest event) (round crc32 config t now now_ms event) after e
        (honest event small)
    where
      honest : (x : Event) → IsSmall x → Returns (IsHonest x) (round crc32 config t now now_ms x)
      honest (received cmd) small' = handle-IsHonest t now now_ms cmd flushing parked small'
      honest timed_out small' = timeout-IsHonest timed_out config.fsync t now parked
      honest disconnected small' = flush_all-IsHonest disconnected t now parked
