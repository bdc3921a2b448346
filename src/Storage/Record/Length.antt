-- ===== src/Storage/Record/Length.antt =====
-- The length of an encoded record.
use replog.Prelude.{ℕ, ◌+◌, ◌≡◌, refl, Option, none, some, List, length, length-append, arith}
use replog.Proto.Wire.Bytes.{le_bytes, length-le_bytes}
use replog.Storage.Record.{Record, key_len, encoded_len, encode_key, encode_body, encode}

length-encode_key : (k : Option (List ℕ)) → length (encode_key k) ≡ 4 + key_len k
unfolding encode_key le_bytes
length-encode_key none = refl
length-encode_key (some k) = omega arith

pub length-encode_body : (r : Record) → length (encode_body r) ≡ 24 + key_len r.key + length r.value
unfolding encode_body
length-encode_body r =
    rw (length-append, length-le_bytes, length-append, length-le_bytes)
      (rw (length-append, length-encode_key, length-append, length-le_bytes) (omega arith))

-- `encode` writes `encoded_len` bytes.
pub length-encode : (crc32 : List ℕ → ℕ) (r : Record) → length (encode crc32 r) ≡ encoded_len r
unfolding encode encoded_len le_bytes
length-encode crc32 r = omega (arith, length-encode_body r)
