-- ===== src/Storage/Record/RoundTrip.antt =====
-- A record is decoded from its own encoding, whatever follows it.
use native.Mathlib.Nat.{mod-eq_of_lt}
use replog.Prelude.{
  append-nil, ℕ, ◌+◌, ◌<◌, ◌≤◌, ◌*◌, ◌^◌, ◌≡◌, refl, ◌∙◌, sym, Option, none, some, List, [], ◌++◌,
  append_assoc, length, drop, length-append, slice-append, drop-append_at, slice, arith, ltb, false,
  ==-refl, le→ltb_false,
}
use replog.Prelude.Int.{ℤ, InRange, pos, negsuc, to_word, of_word, of_word-to_word, to_word-lt}
use replog.Proto.Wire.{as_u32, as_i32}
use replog.Proto.Wire.Bytes.{le_bytes, from_le_bytes, from_le_bytes-le_bytes, length-le_bytes}
use replog.Proto.Wire.Primitives.{IsU32, IsU64, IsI64}
use replog.Storage.Record.{
  Record, decoded, key_len, encoded_len, encode_key, encode_body, decode_value, decode_key,
  decode_body, encode, decode_checked, decode,
}
use replog.Storage.Record.Length.{length-encode_body}

-- A record of the source's types whose `len` field passes the configured maximum, a u32.
pub record IsRecord (max_record_bytes : ℕ) (r : Record) : Type 0 where
  pub offset : IsU64 r.offset
  pub timestamp_ms : IsI64 r.timestamp_ms
  pub key : key_len r.key < 2 ^ 31
  pub fits : 28 + key_len r.key + length r.value ≤ max_record_bytes
  pub limit : max_record_bytes < 2 ^ 32

-- The value part, behind `front`.
decode_value-encode :
    (offset : ℕ) (ts : ℤ) (key : Option (List ℕ)) (front value : List ℕ) (at total : ℕ)
    → at ≡ length front
    → length value < 2 ^ 32
    → decode_value offset ts key at (front ++ (le_bytes 4 (as_u32 (length value)) ++ value)) total
      ≡ decoded (record { offset = offset; timestamp_ms = ts; key = key; value = value }) total
unfolding decode_value
decode_value-encode offset ts key front value at total e h =
    let v4 = le_bytes 4 (length value) in
    let n4 = length-le_bytes 4 (length value) in
    let whole : length (front ++ (v4 ++ value)) ≡ at + 4 + length value =
      rw (length-append, length-append) (omega arith) in
    let tail : drop (at + 4) (front ++ (v4 ++ value)) ≡ value =
      rw (← append_assoc)
        (drop-append_at (at + 4) (front ++ v4) value (rw length-append (omega arith))) in
    rw (mod-eq_of_lt h) (
      rw (slice-append at (at + 4) front v4 value e (omega arith), from_le_bytes-le_bytes 4 _ h)
        (ground (arith, whole, tail)))

signed-le_bytes :
    (k half : ℕ) (z : ℤ)
    → 0 < half
    → 2 * half ≤ 256 ^ k
    → InRange half z
    → of_word half (from_le_bytes (le_bytes k (to_word half z))) ≡ z
signed-le_bytes k half z lo hi h =
    rw (from_le_bytes-le_bytes k (to_word half z) (omega (arith, to_word-lt half z lo)))
      (of_word-to_word half z h)

-- Offset, timestamp and key length, in front of anything.
decode_body-front :
    (offset : ℕ) (ts key_length : ℤ) (rest : List ℕ) (total : ℕ)
    → IsU64 offset
    → IsI64 ts
    → InRange (2 ^ 31) key_length
    → decode_body
        (le_bytes 8 offset
          ++ (le_bytes 8 (to_word (2 ^ 63) ts)
              ++ (le_bytes 4 (to_word (2 ^ 31) key_length) ++ rest)))
        total
      ≡ decode_key offset ts key_length
          (le_bytes 8 offset
            ++ (le_bytes 8 (to_word (2 ^ 63) ts)
                ++ (le_bytes 4 (to_word (2 ^ 31) key_length) ++ rest)))
          total
unfolding decode_body
decode_body-front offset ts k rest total ho ht hk =
    let o = le_bytes 8 offset in
    let t = le_bytes 8 (to_word (2 ^ 63) ts) in
    let l = le_bytes 4 (to_word (2 ^ 31) k) in
    let read_o : from_le_bytes (slice 0 8 (o ++ (t ++ (l ++ rest)))) ≡ offset =
      unfold le_bytes in from_le_bytes-le_bytes 8 offset ho in
    let read_t : of_word (2 ^ 63) (from_le_bytes (slice 8 16 (o ++ (t ++ (l ++ rest))))) ≡ ts =
      unfold le_bytes in signed-le_bytes 8 (2 ^ 63) ts (omega arith) (omega arith) ht in
    let read_l : of_word (2 ^ 31) (from_le_bytes (slice 16 20 (o ++ (t ++ (l ++ rest))))) ≡ k =
      unfold le_bytes in signed-le_bytes 4 (2 ^ 31) k (omega arith) (omega arith) hk in
    rw (read_o, read_t, read_l)

as_i32-small : (n : ℕ) → n < 2 ^ 31 → as_i32 n ≡ pos n
as_i32-small n h = ground arith

abbrev key_length : Option (List ℕ) → ℤ
key_length none = negsuc 0
key_length (some k) = pos (length k)

abbrev key_bytes : Option (List ℕ) → List ℕ
key_bytes none = []
key_bytes (some k) = k

-- The twenty bytes in front of the key.
abbrev front : ℕ → ℤ → ℤ → List ℕ
front offset ts k =
    le_bytes 8 offset ++ (le_bytes 8 (to_word (2 ^ 63) ts) ++ le_bytes 4 (to_word (2 ^ 31) k))

length-front : (offset : ℕ) (ts k : ℤ) → length (front offset ts k) ≡ 20
unfolding le_bytes
length-front offset ts k = refl

encode_key-split :
    (k : Option (List ℕ))
    → key_len k < 2 ^ 31
    → encode_key k ≡ le_bytes 4 (to_word (2 ^ 31) (key_length k)) ++ key_bytes k
unfolding encode_key
encode_key-split none h = sym (append-nil _)
encode_key-split (some k) h = rw (as_i32-small (length k) h)

key_length-range : (k : Option (List ℕ)) → key_len k < 2 ^ 31 → InRange (2 ^ 31) (key_length k)
key_length-range none h = omega arith
key_length-range (some k) h = h

encode_body-front :
    (r : Record)
    → key_len r.key < 2 ^ 31
    → encode_body r
      ≡ front r.offset r.timestamp_ms (key_length r.key)
        ++ (key_bytes r.key ++ (le_bytes 4 (as_u32 (length r.value)) ++ r.value))
unfolding encode_body
encode_body-front r h = rw (encode_key-split r.key h) (simp append_assoc)

decode_key-encode :
    (offset : ℕ) (ts : ℤ) (key : Option (List ℕ)) (start value : List ℕ) (total : ℕ)
    → length start ≡ 20
    → length value < 2 ^ 32
    → decode_key offset ts
        (key_length key)
        (start ++ (key_bytes key ++ (le_bytes 4 (as_u32 (length value)) ++ value)))
        total
      ≡ decoded (record { offset = offset; timestamp_ms = ts; key = key; value = value }) total
unfolding decode_key
decode_key-encode offset ts none start value total e h =
    decode_value-encode offset ts none start value 20 total (sym e) h
decode_key-encode offset ts (some k) start value total e h =
    let v4 = le_bytes 4 (as_u32 (length value)) in
    let room : ltb (length (start ++ (k ++ (v4 ++ value)))) (20 + length k + 4) ≡ false =
      le→ltb_false _ _ (
        rw (length-append, length-append, length-append)
          (omega (arith, length-le_bytes 4 (as_u32 (length value))))) in
    rw (room, slice-append 20 (20 + length k) start k (v4 ++ value) (sym e) (omega arith))
      (rw (← append_assoc) (
        decode_value-encode offset ts (some k) (start ++ k) value (20 + length k) total
          (rw length-append (omega arith)) h))

decode_body-encode_body :
    (max : ℕ) (r : Record) (total : ℕ)
    → IsRecord max r
    → decode_body (encode_body r) total ≡ decoded r total
decode_body-encode_body max r total h =
    let back = key_bytes r.key ++ (le_bytes 4 (as_u32 (length r.value)) ++ r.value) in
    let k = key_length r.key in
    let in_front : decode_body (front r.offset r.timestamp_ms k ++ back) total
        ≡ decode_key r.offset r.timestamp_ms k (front r.offset r.timestamp_ms k ++ back) total =
      simp append_assoc (
        decode_body-front r.offset r.timestamp_ms k back total h.offset h.timestamp_ms
          (key_length-range r.key h.key)) in
    rw (encode_body-front r h.key) (
      in_front
      ∙ decode_key-encode r.offset r.timestamp_ms r.key (front r.offset r.timestamp_ms k) r.value
          total (length-front r.offset r.timestamp_ms k) (omega (arith, h.fits, h.limit)))

len_small : (k v : ℕ) → 28 + k + v < 2 ^ 32 → as_u32 (4 + (24 + k + v)) ≡ 28 + k + v
len_small k v h = omega arith

module _ (crc32 : List ℕ → ℕ) (crc32-IsU32 : (b : List ℕ) → IsU32 (crc32 b)) where
  -- The three parts of an encoded record, in front of anything.
  pub encode-parts :
      (max : ℕ) (r : Record) (rest : List ℕ)
      → IsRecord max r
      → encode crc32 r ++ rest
        ≡ le_bytes 4 (28 + key_len r.key + length r.value)
          ++ (le_bytes 4 (crc32 (encode_body r)) ++ (encode_body r ++ rest))
  unfolding encode
  encode-parts max r rest h =
      rw (len_small (key_len r.key) (length r.value) (omega (arith, h.fits, h.limit)))
        (simp append_assoc)

  decode_checked-encode :
      (max : ℕ) (r : Record) (l c rest : List ℕ)
      → IsRecord max r
      → length l ≡ 4
      → c ≡ le_bytes 4 (crc32 (encode_body r))
      → decode_checked crc32
          (l ++ (c ++ (encode_body r ++ rest)))
          (32 + key_len r.key + length r.value)
        ≡ decoded r (32 + key_len r.key + length r.value)
  unfolding decode_checked
  decode_checked-encode max r l c rest h el ec =
      let body = encode_body r in
      let total = 32 + key_len r.key + length r.value in
      let ec4 : length c ≡ 4 = rw ec (length-le_bytes 4 (crc32 body)) in
      let stored : from_le_bytes (slice 4 8 (l ++ (c ++ (body ++ rest)))) ≡ crc32 body =
        rw (slice-append 4 8 l c (body ++ rest) (sym el) (omega arith))
          (rw ec (from_le_bytes-le_bytes 4 (crc32 body) (crc32-IsU32 body))) in
      let whole : slice 8 total (l ++ (c ++ (body ++ rest))) ≡ body = rw (← append_assoc) (
        slice-append 8 total (l ++ c) body rest (rw length-append (omega arith))
          (rw length-append (omega (arith, length-encode_body r)))) in
      rw (stored, whole, ==-refl) (decode_body-encode_body max r total h)

  -- A record in range is decoded from its own encoding in front of anything, and the bytes that
  -- were used are those of the encoding. The checksum is any function into u32.
  pub decode-encode :
      (max : ℕ) (r : Record) (rest : List ℕ)
      → IsRecord max r
      → decode crc32 (encode crc32 r ++ rest) max ≡ decoded r (encoded_len r)
  unfolding decode encoded_len
  decode-encode max r rest h =
      let n = 28 + key_len r.key + length r.value in
      let l = le_bytes 4 n in
      let c = le_bytes 4 (crc32 (encode_body r)) in
      let back = c ++ (encode_body r ++ rest) in
      let len : from_le_bytes (slice 0 4 (l ++ back)) ≡ n =
        rw (slice-append 0 4 [] l back refl (omega (arith, length-le_bytes 4 n)))
          (from_le_bytes-le_bytes 4 n (omega (arith, h.fits, h.limit))) in
      let size : length (l ++ back) ≡ 4 + n + length rest =
        rw (length-append, length-append, length-append)
          (omega (
            arith,
            length-le_bytes 4 n,
            length-le_bytes 4 (crc32 (encode_body r)),
            length-encode_body r,
          )) in
      rw (encode-parts max r rest h, len)
        (ground
          (arith, size, h.fits, decode_checked-encode max r l c rest h (length-le_bytes 4 n) refl))
