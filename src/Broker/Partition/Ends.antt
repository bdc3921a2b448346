-- ===== src/Broker/Partition/Ends.antt =====
-- A round of a partition's thread ends.
use replog.Prelude.{ℕ, some, none, List, [], ◌∷◌, ◌+◌}
use replog.Prelude.Int.{ℤ}
use replog.Proto.Wire.{as_u32}
use replog.Storage.Record.{Record}
use replog.Storage.Config.{LogConfig, Result, ok, err, panicked, stuck}
use replog.Storage.Segment.Terminates.{Ends, Ends-bind}
use replog.Storage.Log
use replog.Storage.Log.{Log, AppendInfo}
use replog.Storage.Log.Suffix.{read, truncate_suffix}
use replog.Storage.Log.Ends.{
  append-Ends, append_replicated-Ends, read-Ends, truncate_suffix-IsEnded,
}
use replog.Broker.Partition.{
  NewRecord, Cmd, Thread, Batch, no_appends, append_all, replicate_all, log_config, or_insert,
  map_storage_err,
}
use replog.Broker.Partition.Run.{
  Event, received, timed_out, disconnected, handle, round, read_reply, finish_truncate,
}

read_reply-Ends : (t : Thread) (m : Result (List Record)) → Ends m → Ends (read_reply t m)
unfolding read_reply
read_reply-Ends t (ok records) h = tt
read_reply-Ends t (err e) h = tt
read_reply-Ends t panicked h = tt
read_reply-Ends t stuck h = h

finish_truncate-Ends :
    (t : Thread) (offset reply : ℕ) (cut : Log × Result (Unit {0}))
    → Ends cut.1
    → Ends (finish_truncate t offset reply cut)
unfolding finish_truncate
finish_truncate-Ends t offset reply (log, ok done) h = tt
finish_truncate-Ends t offset reply (log, err e) h = tt
finish_truncate-Ends t offset reply (log, panicked) h = tt
finish_truncate-Ends t offset reply (log, stuck) h = h

module _ (crc32 : List ℕ → ℕ) (config : LogConfig) where
  append_all-Ends :
      (b : Batch) (now : ℕ) (now_ms : ℤ) (rs : List NewRecord)
      → Ends (append_all crc32 config b now now_ms rs)
  unfolding append_all
  append_all-Ends b now now_ms [] = tt
  append_all-Ends b now now_ms (r ∷ rs) =
      outcome (Log.append crc32 (log_config config) b.log now now_ms r.0 r.1)
        (append-Ends crc32 (log_config config) b.log now now_ms r.0 r.1)
        (λ b'. append_all-Ends b' now now_ms rs)
    where
      outcome :
          (o : Result (Log × AppendInfo))
          → Ends o
          → ((b' : Batch) → Ends (append_all crc32 config b' now now_ms rs))
          → Ends (elim o [
            | ok done ↦
                append_all crc32 config
                  (record {
                    log = done.0;
                    base_offset = or_insert b.base_offset done.1.offset;
                    count = as_u32 (b.count + 1);
                    error = none;
                  })
                  now
                  now_ms
                  rs
            | err e ↦ ok (record b { error = some (map_storage_err e) })
            | panicked ↦ panicked
            | stuck ↦ stuck
          ])
      outcome (ok done) h again = again _
      outcome (err e) h again = tt
      outcome panicked h again = tt
      outcome stuck h again = h

  replicate_all-Ends :
      (log : Log) (now : ℕ) (rs : List Record) → Ends (replicate_all crc32 config log now rs)
  unfolding replicate_all
  replicate_all-Ends log now [] = tt
  replicate_all-Ends log now (r ∷ rs) =
      outcome (Log.append_replicated crc32 (log_config config) log now r)
        (append_replicated-Ends crc32 (log_config config) log now r)
        (λ log'. replicate_all-Ends log' now rs)
    where
      outcome :
          (o : Result (Log × AppendInfo))
          → Ends o
          → ((log' : Log) → Ends (replicate_all crc32 config log' now rs))
          → Ends (elim o [
            | ok done ↦ replicate_all crc32 config done.0 now rs
            | err e ↦ ok (log, some (map_storage_err e))
            | panicked ↦ panicked
            | stuck ↦ stuck
          ])
      outcome (ok done) h again = again _
      outcome (err e) h again = tt
      outcome panicked h again = tt
      outcome stuck h again = h

  handle-Ends :
      (t : Thread) (now : ℕ) (now_ms : ℤ) (cmd : Cmd) → Ends (handle crc32 config t now now_ms cmd)
  unfolding handle
  handle-Ends t now now_ms (Cmd.append records acks reply) =
      Ends-bind (append_all crc32 config (no_appends t.log) now now_ms records) _
        (append_all-Ends (no_appends t.log) now now_ms records) (λ b. tt)
  handle-Ends t now now_ms (Cmd.read offset max_bytes reply) =
      Ends-bind (read_reply t (read crc32 (log_config config) t.log offset max_bytes)) _
        (read_reply-Ends t (read crc32 (log_config config) t.log offset max_bytes)
          (read-Ends crc32 (log_config config) t.log offset max_bytes))
        (λ r. tt)
  handle-Ends t now now_ms (Cmd.append_replicated records reply) =
      Ends-bind (replicate_all crc32 config t.log now records) _
        (replicate_all-Ends t.log now records) (λ done. tt)
  handle-Ends t now now_ms (Cmd.truncate_to offset reply) =
      finish_truncate-Ends t offset reply (truncate_suffix crc32 (log_config config) t.log offset)
        (truncate_suffix-IsEnded crc32 (log_config config) t.log offset)
  handle-Ends t now now_ms (Cmd.record_epoch epoch) = tt
  handle-Ends t now now_ms (Cmd.epoch_status reply) = tt
  handle-Ends t now now_ms (Cmd.epoch_end_for epoch reply) = tt

  -- A round of a partition's thread never runs out of the model's fuel, whatever command it serves and
  -- whatever the files hold: reads and cuts of the log end.
  pub round-Ends :
      (t : Thread) (now : ℕ) (now_ms : ℤ) (event : Event)
      → Ends (round crc32 config t now now_ms event)
  unfolding round
  round-Ends t now now_ms (received cmd) = handle-Ends t now now_ms cmd
  round-Ends t now now_ms timed_out = tt
  round-Ends t now now_ms disconnected = tt
