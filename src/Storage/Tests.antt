-- ===== src/Storage/Tests.antt =====
-- Runs of the storage functions on concrete data, and their theorems at them.
use replog.Prelude.{
  ℕ, ◌%◌, ◌^◌, ◌≡◌, ◌↔◌, refl, true, none, some, List, [], ◌∷◌, ◌++◌, length, arith, take, drop,
}
use replog.Prelude.Int.{pos, negsuc}
use replog.Proto.Wire.Bytes.{le_bytes}
use replog.Proto.Wire.Primitives.{IsU32}
use replog.Storage.Record.{
  Record, decoded, incomplete, encoded_len, encode_key, encode_body, encode, decode,
}
use replog.Storage.Record.RoundTrip.{IsRecord, decode-encode}
use replog.Storage.Record.Torn.{decode-torn}
use replog.Storage.Config.{LogConfig, FsyncPolicy, ok, validate}
use replog.Storage.Config.Valid.{IsValid, validate_iff}
use replog.Storage.Segment.Terminates.{Ends, recover-Ends}
use replog.Storage.Log.{Log, AppendInfo, write_record, append_record}
use replog.Storage.Log.Durable.{IsLog, Appended, append_record-Appended, append_record-always}
use replog.Storage.Index
use replog.Storage.Index.Load.{encode_entries, load-encode_entries}
use replog.Storage.Segment.{create, recover}
use replog.Storage.Segment.Recover.{append_all, recover-torn}
use replog.Storage.Epoch.{EpochCheckpoint}
use replog.Storage.Epoch
use replog.Storage.Epoch.Reload.{
  IsCheckpoint, load-IsCheckpoint, append-IsCheckpoint, truncate_to-IsCheckpoint,
}
use replog.Storage.Epoch.EndOffset.{EndsAt, end_offset_for-EndsAt}

-- A checksum for the runs.
abbrev toy_crc : List ℕ → ℕ
toy_crc bytes = length bytes % 2 ^ 32

toy_crc-IsU32 : (b : List ℕ) → IsU32 (toy_crc b)
toy_crc-IsU32 b = omega arith

abbrev small_config : LogConfig
small_config = record {
  max_segment_bytes = 1024;
  index_interval_bytes = 64;
  max_record_bytes = 4096;
  fsync = FsyncPolicy.always;
}

abbrev keyed : Record
keyed = record { offset = 7; timestamp_ms = pos 1000; key = some (1 ∷ 2 ∷ []); value = 9 ∷ [] }

abbrev unkeyed : Record
unkeyed = record { offset = 8; timestamp_ms = negsuc 0; key = none; value = 5 ∷ 6 ∷ [] }

keyed-IsRecord : IsRecord 4096 keyed
keyed-IsRecord = record {
  offset = omega arith;
  timestamp_ms = omega arith;
  key = omega arith;
  fits = omega arith;
  limit = omega arith;
}

unkeyed-IsRecord : IsRecord 4096 unkeyed
unkeyed-IsRecord = record {
  offset = omega arith;
  timestamp_ms = omega arith;
  key = omega arith;
  fits = omega arith;
  limit = omega arith;
}

decode-encode_example :
    decode toy_crc (encode toy_crc keyed ++ 1 ∷ []) 4096 ≡ decoded keyed (encoded_len keyed)
decode-encode_example = decode-encode toy_crc toy_crc-IsU32 4096 keyed (1 ∷ []) keyed-IsRecord

abbrev unkeyed_bytes : List ℕ
unkeyed_bytes =
    30 ∷ 0 ∷ 0 ∷ 0 ∷ 26 ∷ 0 ∷ 0 ∷ 0 ∷ 8 ∷ 0 ∷ 0 ∷ 0 ∷ 0 ∷ 0 ∷ 0 ∷ 0 ∷ 255 ∷ 255 ∷ 255 ∷ 255 ∷ 255
    ∷ 255 ∷ 255 ∷ 255 ∷ 255 ∷ 255 ∷ 255 ∷ 255 ∷ 2 ∷ 0 ∷ 0 ∷ 0 ∷ 5 ∷ 6 ∷ []

-- The first bytes of the record, and the others.
abbrev torn_front : List ℕ
torn_front = take 10 unkeyed_bytes

unkeyed_split : encode toy_crc unkeyed ≡ torn_front ++ 0 ∷ drop 11 unkeyed_bytes
unfolding encode encode_body encode_key le_bytes
unkeyed_split = refl

decode-torn_example : decode toy_crc torn_front 4096 ≡ incomplete
decode-torn_example =
    decode-torn toy_crc toy_crc-IsU32 4096 unkeyed torn_front 0 (drop 11 unkeyed_bytes)
      unkeyed-IsRecord unkeyed_split

recover-torn_example :
    recover toy_crc small_config 7
      ((append_all toy_crc small_config (create 7) (keyed ∷ [])).file ++ torn_front)
      none
      true
    ≡ ok (append_all toy_crc small_config (create 7) (keyed ∷ []))
recover-torn_example =
    recover-torn toy_crc toy_crc-IsU32 small_config 7 (keyed ∷ []) unkeyed torn_front 0
      (drop 11 unkeyed_bytes) none (keyed-IsRecord, refl, tt) unkeyed-IsRecord unkeyed_split

-- A file of a record and bytes that are none.
recover-Ends_example : Ends (recover toy_crc small_config 8 (unkeyed_bytes ++ 9 ∷ 9 ∷ []) none true)
recover-Ends_example = recover-Ends toy_crc small_config 8 (unkeyed_bytes ++ 9 ∷ 9 ∷ []) none true

validate_iff_example : (validate small_config ≡ ok tt) ↔ IsValid small_config
validate_iff_example = validate_iff small_config

load-encode_entries_example :
    Index.load (some (encode_entries ((0, 0) ∷ (3, 70) ∷ []))) ≡ some ((0, 0) ∷ (3, 70) ∷ [])
unfolding Index.follows
load-encode_entries_example =
    load-encode_entries ((0, 0) ∷ (3, 70) ∷ [])
      (omega arith, omega arith, refl, (omega arith, omega arith, refl, tt))

abbrev history : List (ℕ × ℕ)
history = (1, 0) ∷ (4, 10) ∷ (6, 10) ∷ []

abbrev checkpoint : EpochCheckpoint
checkpoint = record { file = some (Epoch.encode_entries history); entries = history }

checkpoint-IsCheckpoint : IsCheckpoint checkpoint
unfolding Epoch.follows Epoch.contents
checkpoint-IsCheckpoint = record {
  chain = (
    omega arith,
    omega arith,
    refl,
    (omega arith, omega arith, refl, (omega arith, omega arith, refl, tt)),
  );
  file = refl;
}

load-IsCheckpoint_example : Epoch.load checkpoint.file ≡ Epoch.ok checkpoint
load-IsCheckpoint_example = load-IsCheckpoint checkpoint checkpoint-IsCheckpoint

truncate_to-IsCheckpoint_example : IsCheckpoint (Epoch.truncate_to checkpoint 5)
truncate_to-IsCheckpoint_example = truncate_to-IsCheckpoint checkpoint 5 checkpoint-IsCheckpoint

append-IsCheckpoint_example : IsCheckpoint (Epoch.push checkpoint (9, 12))
unfolding Epoch.append Epoch.last Epoch.last_from
append-IsCheckpoint_example =
    append-IsCheckpoint checkpoint (Epoch.push checkpoint (9, 12)) 9 12 checkpoint-IsCheckpoint
      (omega arith) (omega arith) refl

-- Epoch 5 has no entry: it ends where epoch 6 starts.
end_offset_for-EndsAt_example : EndsAt 5 20 history (Epoch.end_offset_for history 5 20)
end_offset_for-EndsAt_example = end_offset_for-EndsAt history 5 20 checkpoint-IsCheckpoint.chain

abbrev fresh : Log
fresh = record {
  closed = [];
  active = create 7;
  durable_offset = some 6;
  dirty_bytes = 0;
  last_flush = 0;
}

abbrev fresh_after : Log × AppendInfo
fresh_after = write_record toy_crc small_config fresh 5 keyed

fresh_appends : append_record toy_crc small_config fresh 5 keyed ≡ ok fresh_after
unfolding append_record encoded_len create
fresh_appends = refl

fresh-IsLog : IsLog fresh
unfolding create
fresh-IsLog = omega arith

append_record-Appended_example : Appended 7 fresh_after
unfolding create
append_record-Appended_example =
    append_record-Appended toy_crc small_config fresh 5 keyed fresh_after fresh-IsLog fresh_appends

append_record-always_example : fresh_after.1.durable_offset ≡ some 7
unfolding create
append_record-always_example =
    append_record-always toy_crc small_config fresh 5 keyed fresh_after refl fresh_appends
