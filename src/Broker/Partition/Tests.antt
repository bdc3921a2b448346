-- ===== src/Broker/Partition/Tests.antt =====
-- A partition's thread on concrete commands, and its theorems at them.
use replog.Broker.Partition.Ends.{round-Ends}
use replog.Storage.Segment.Terminates.{Ends}
use replog.Storage.Segment.{recover, scan, start_of, start_anew, scan_record}
use replog.Storage.Segment.Read.{position_of, start_position, position_from, window, locate}
use replog.Storage.Log.Suffix.{
  truncate_suffix, start_offset, target_base, up_to, remove, index_file, cut_durable, rebuild,
  cut_at,
}
use replog.Proto.Wire.Bytes.{le_bytes, from_le_bytes}
use replog.Prelude.{
  ℕ, ◌%◌, ◌^◌, ◌-◌, ◌≤◌, ◌≡◌, ◌⊎◌, refl, none, some, List, [], ◌∷◌, map, length, arith,
}
use replog.Prelude.Int.{pos}
use replog.Proto.Codes.{Acks}
use replog.Storage.Config.{batch, LogConfig, Result, ok, err, panicked, stuck}
use replog.Storage.Segment
use replog.Storage.Index
use replog.Storage.Record.{
  encoded_len, encode, encode_body, encode_key, Record, decode, decode_checked, decode_body,
  decode_key, decode_value,
}
use replog.Storage.Log.{
  flush_due, write_record, append_record, append, next_offset, flush, checked_pred,
  append_replicated,
}
use replog.Storage.Epoch
use replog.Storage.Epoch.{EpochCheckpoint}
use replog.Broker.Partition.{
  Cmd, appended, Thread, Sent, log_config, log_policy, covers, is_dirty, drain, drain_pending,
  mark_dirty, append_all, or_insert, replicate_all,
}
use replog.Broker.Partition.Run.{
  Event, received, acked_now, acknowledge, answer, finish_append, flush_all, timeout, handle, round,
  finish_truncate, with_log, finish_replicated, end_or,
}
use replog.Broker.Partition.Covered.{IsHonest}
use replog.Broker.Partition.Promise.{round-IsHonest}
use replog.Broker.Partition.Queue.{promised}
use replog.Broker.Partition.Liveness.{Reached, spawned, served, Reached-timeout}

abbrev toy_crc : List ℕ → ℕ
toy_crc bytes = length bytes % 2 ^ 32

abbrev config : LogConfig
config = record {
  max_segment_bytes = 4096;
  index_interval_bytes = 64;
  max_record_bytes = 1024;
  fsync = batch 4096 20;
}

abbrev fresh : Thread
fresh = record {
  log = record {
    closed = [];
    active = record {
      base_offset = 0;
      file = [];
      index = [];
      next_offset = 0;
      size = 0;
      bytes_since_index = 0;
    };
    durable_offset = none;
    dirty_bytes = 0;
    last_flush = 0;
  };
  epochs = record { file = none; entries = [] };
  pending = [];
  dirty_since = none;
  watched = 0;
}

-- A produce of two records that waits for the disk.
abbrev produce : Event
produce = received (Cmd.append ((none, 1 ∷ []) ∷ (none, 2 ∷ []) ∷ []) Acks.durable (some 7))

abbrev value : Result (Thread × Sent) → Thread × Sent
value (ok after) = after
value (err e) = (fresh, [])
value panicked = (fresh, [])
value stuck = (fresh, [])

abbrev parked : Thread × Sent
parked = value (round toy_crc config fresh 5 (pos 9) produce)

parked_runs : round toy_crc config fresh 5 (pos 9) produce ≡ ok parked
unfolding round handle append_all log_config log_policy append append_record write_record flush_due
    encoded_len or_insert Segment.append encode encode_body encode_key finish_append answer
    acknowledge acked_now covers drain drain_pending mark_dirty is_dirty next_offset
parked_runs = refl

parked_waits :
    parked.0.pending ≡ (record { last_offset = 1; base_offset = 0; count = 2; reply = 7 }) ∷ []
unfolding round handle append_all log_config log_policy append append_record write_record flush_due
    encoded_len or_insert Segment.append encode encode_body encode_key finish_append answer
    acknowledge acked_now covers drain drain_pending mark_dirty is_dirty next_offset le_bytes
parked_waits = refl

-- The broker is demoted before the flush: the parked records are cut off, and the new leader's take
-- their place.
abbrev cut : Thread × Sent
cut = value (round toy_crc config parked.0 6 (pos 9) (received (Cmd.truncate_to 0 8)))

abbrev replica : ℕ → Record
replica offset = record { offset = offset; timestamp_ms = pos 1; key = none; value = 9 ∷ [] }

abbrev replaced : Thread × Sent
replaced = value (
    round toy_crc config cut.0 7 (pos 9)
      (received (Cmd.append_replicated (replica 0 ∷ replica 1 ∷ []) 9)))

-- The next flush still answers the produce whose records are gone.
replaced_answers : (timeout (batch 4096 20) replaced.0 40).1 ≡ (7, appended 0 2) ∷ []
unfolding round handle append_all log_config log_policy append append_record write_record flush_due
    encoded_len or_insert Segment.append encode encode_body encode_key finish_append answer
    acknowledge acked_now covers drain drain_pending mark_dirty is_dirty next_offset le_bytes flush
    checked_pred timeout flush_all finish_truncate with_log replicate_all append_replicated
    finish_replicated end_or truncate_suffix start_offset target_base up_to remove index_file
    cut_durable rebuild cut_at position_of start_position position_from window locate recover scan
    start_of start_anew Segment.finish scan_record Index.load Index.lookup Index.lookup_from
    Index.append decode decode_checked decode_body decode_key decode_value from_le_bytes
    Epoch.truncate_to Epoch.take_below Epoch.encode_entries
replaced_answers = refl

round-IsHonest_example : IsHonest produce parked
round-IsHonest_example =
    round-IsHonest toy_crc config fresh 5 (pos 9) produce parked (λ e. ground arith) tt
      (omega arith) parked_runs

parked-Reached : Reached toy_crc config parked.0
parked-Reached =
    served fresh 5 (pos 9) produce parked (spawned fresh.log fresh.epochs 0) tt (omega arith)
      parked_runs

parked_since : (since : ℕ) → parked.0.dirty_since ≡ some since → 20 ≤ 25 - since
unfolding round handle append_all log_config log_policy append append_record write_record flush_due
    encoded_len or_insert Segment.append encode encode_body encode_key finish_append answer
    acknowledge acked_now covers drain drain_pending mark_dirty is_dirty next_offset
parked_since since e = ground arith

Reached-timeout_example :
    ((parked.0.pending ≡ []) ⊎ ((since : ℕ) × (parked.0.dirty_since ≡ some since)))
    × ((timeout (batch 4096 20) parked.0 25).0.pending ≡ [])
    × ((timeout (batch 4096 20) parked.0 25).1 ≡ map promised parked.0.pending)
Reached-timeout_example =
    Reached-timeout toy_crc config parked.0 25 4096 20 parked-Reached parked_since

round-Ends_example : Ends (round toy_crc config parked.0 6 (pos 9) (received (Cmd.truncate_to 0 8)))
round-Ends_example = round-Ends toy_crc config parked.0 6 (pos 9) (received (Cmd.truncate_to 0 8))
