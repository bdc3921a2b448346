-- ===== src/Storage/Log/Tests.antt =====
-- A read of a log on concrete data, and the theorem at it.
use replog.Prelude.{ℕ, ◌%◌, ◌^◌, ◌≡◌, refl, none, some, List, [], ◌∷◌, ◌++◌, length}
use replog.Prelude.Int.{pos}
use replog.Proto.Wire.Bytes.{le_bytes, from_le_bytes}
use replog.Storage.Record.{
  Record, encode, encode_body, encode_key, decode, decode_checked, decode_body, decode_key,
  decode_value,
}
use replog.Storage.Config.{LogConfig, always, ok}
use replog.Storage.Index
use replog.Storage.Log.{Log, next_offset}
use replog.Storage.Segment.Read.{read_from, collect, window, start_position, position_from}
use replog.Storage.Segment.Bounds.{IsBounded}
use replog.Storage.Log.Suffix.{read, start_offset}
use replog.Storage.Log.Bounds.{read-IsBounded}

abbrev toy_crc : List ℕ → ℕ
toy_crc bytes = length bytes % 2 ^ 32

abbrev config : LogConfig
config = record {
  max_segment_bytes = 4096;
  index_interval_bytes = 64;
  max_record_bytes = 1024;
  fsync = always;
}

abbrev entry : ℕ → Record
entry offset = record { offset = offset; timestamp_ms = pos 3; key = none; value = 5 ∷ [] }

abbrev bytes : List ℕ
bytes = encode toy_crc (entry 0) ++ (encode toy_crc (entry 1) ++ encode toy_crc (entry 2))

abbrev stored : Log
stored = record {
  closed = [];
  active = record {
    base_offset = 0;
    file = bytes;
    index = (0, 0) ∷ [];
    next_offset = 3;
    size = 99;
    bytes_since_index = 99;
  };
  durable_offset = some 2;
  dirty_bytes = 0;
  last_flush = 0;
}

-- From the second record on there is room for one record.
stored_reads : read toy_crc config stored 1 40 ≡ ok (entry 1 ∷ [])
unfolding read start_offset next_offset read_from collect window start_position position_from
    Index.lookup Index.lookup_from encode encode_body encode_key le_bytes from_le_bytes decode
    decode_checked decode_body decode_key decode_value
stored_reads = refl

read-IsBounded_example : IsBounded 1 40 (entry 1 ∷ [])
read-IsBounded_example = read-IsBounded toy_crc config stored 1 40 (entry 1 ∷ []) stored_reads
