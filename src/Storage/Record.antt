-- ===== src/Storage/Record.antt =====
-- src/storage/record.rs: a record's bytes on disk. The checksum is crc32fast's, and a parameter.
pub mod Length
pub mod RoundTrip
pub mod Torn
pub mod Consumed
pub mod Measured
use replog.Prelude.{
  ℕ, ◌+◌, ◌-◌, ◌^◌, ◌%◌, Option, none, some, List, [], ◌∷◌, ◌++◌, length, slice, drop, ltb, ◌==◌,
  not, if◌then◌else◌,
}
use replog.Prelude.Int.{ℤ, pos, negsuc, to_word, of_word}
use replog.Proto.Wire.{as_u32, as_i32}
use replog.Proto.Wire.Bytes.{le_bytes, from_le_bytes}

abbrev pub len_field_bytes : ℕ
len_field_bytes = 4

abbrev pub crc_field_bytes : ℕ
crc_field_bytes = 4

abbrev pub min_body_bytes : ℕ
min_body_bytes = 24

pub record Record : Type 0 where
  pub offset : ℕ
  pub timestamp_ms : ℤ
  pub key : Option (List ℕ)
  pub value : List ℕ

-- The text of a `Corrupt` outcome, as data.
pub data Reason : Type 0 where
  small_length large_length key_overruns value_mismatch : ℕ → Reason
  crc_mismatch : ℕ → ℕ → Reason
  missing_value_length : Reason

pub data DecodeOutcome : Type 0 where
  decoded : Record → ℕ → DecodeOutcome
  incomplete : DecodeOutcome
  corrupt : Reason → DecodeOutcome

-- `self.key.as_ref().map_or(0, |k| k.len())`
abbrev pub key_len : Option (List ℕ) → ℕ
key_len none = 0
key_len (some k) = length k

unfoldable pub encoded_len : Record → ℕ
encoded_len r = len_field_bytes + crc_field_bytes + min_body_bytes + key_len r.key + length r.value

unfoldable pub encode_key : Option (List ℕ) → List ℕ
encode_key none = le_bytes 4 (to_word (2 ^ 31) (negsuc 0))
encode_key (some k) = le_bytes 4 (to_word (2 ^ 31) (as_i32 (length k))) ++ k

-- What `encode` writes from `body_start` on.
unfoldable pub encode_body : Record → List ℕ
encode_body r =
    le_bytes 8 r.offset
    ++ (le_bytes 8 (to_word (2 ^ 63) r.timestamp_ms)
        ++ (encode_key r.key ++ (le_bytes 4 (as_u32 (length r.value)) ++ r.value)))

-- The value and its length, from `at` on; `key` is read.
unfoldable pub decode_value : ℕ → ℤ → Option (List ℕ) → ℕ → List ℕ → ℕ → DecodeOutcome
decode_value offset timestamp_ms key at body total =
    let value_len = from_le_bytes (slice at (at + 4) body) in
    if ltb (length body) (at + 4)
    then corrupt missing_value_length
    else if not (length body == at + 4 + value_len)
    then corrupt (value_mismatch value_len)
    else decoded
        (record {
          offset = offset;
          timestamp_ms = timestamp_ms;
          key = key;
          value = drop (at + 4) body;
        })
        total

unfoldable pub decode_key : ℕ → ℤ → ℤ → List ℕ → ℕ → DecodeOutcome
decode_key offset timestamp_ms (negsuc n) body total =
    decode_value offset timestamp_ms none 20 body total
decode_key offset timestamp_ms (pos kl) body total =
    if ltb (length body) (20 + kl + 4)
    then corrupt (key_overruns kl)
    else decode_value offset timestamp_ms (some (slice 20 (20 + kl) body)) (20 + kl) body total

-- The part of `decode` behind the checksum.
unfoldable pub decode_body : List ℕ → ℕ → DecodeOutcome
decode_body body total =
    decode_key (from_le_bytes (slice 0 8 body)) (of_word (2 ^ 63) (from_le_bytes (slice 8 16 body)))
      (of_word (2 ^ 31) (from_le_bytes (slice 16 20 body))) body total

module _ (crc32 : List ℕ → ℕ) where
  unfoldable pub encode : Record → List ℕ
  encode r =
      le_bytes 4 (as_u32 (crc_field_bytes + (min_body_bytes + key_len r.key + length r.value)))
      ++ (le_bytes 4 (crc32 (encode_body r)) ++ encode_body r)

  unfoldable pub decode_checked : List ℕ → ℕ → DecodeOutcome
  decode_checked buf total =
      let crc_stored = from_le_bytes (slice 4 8 buf) in
      let body = slice 8 total buf in
      if not (crc_stored == crc32 body)
      then corrupt (crc_mismatch crc_stored (crc32 body))
      else decode_body body total

  unfoldable pub decode : List ℕ → ℕ → DecodeOutcome
  decode buf max_record_bytes =
      let len = from_le_bytes (slice 0 4 buf) in
      if ltb (length buf) len_field_bytes
      then incomplete
      else if ltb len (crc_field_bytes + min_body_bytes)
      then corrupt (small_length len)
      else if ltb max_record_bytes len
      then corrupt (large_length len)
      else if ltb (length buf) (len_field_bytes + len)
      then incomplete
      else decode_checked buf (len_field_bytes + len)
