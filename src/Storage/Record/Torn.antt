-- ===== src/Storage/Record/Torn.antt =====
-- A write that a crash cut short.
use replog.Prelude.{
  ℕ, ◌+◌, ◌≡◌, ap, List, [], ◌∷◌, ◌++◌, append-nil, length, length-append, take, take-append_le,
  take-append_at, slice, arith, ltb, inl, inr, Bool-cases,
}
use replog.Proto.Wire.Bytes.{le_bytes, from_le_bytes, length-le_bytes, from_le_bytes-le_bytes}
use replog.Proto.Wire.Primitives.{IsU32}
use replog.Storage.Record.{Record, incomplete, key_len, encoded_len, encode, decode}
use replog.Storage.Record.Length.{length-encode}
use replog.Storage.Record.RoundTrip.{IsRecord, encode-parts}

module _ (crc32 : List ℕ → ℕ) (crc32-IsU32 : (b : List ℕ) → IsU32 (crc32 b)) where
  len_field :
      (max : ℕ) (r : Record)
      → IsRecord max r
      → take 4 (encode crc32 r) ≡ le_bytes 4 (28 + key_len r.key + length r.value)
  len_field max r h = rw append-nil at (
      let whole : take 4 (encode crc32 r ++ []) ≡ le_bytes 4 (28 + key_len r.key + length r.value) =
        rw (encode-parts crc32 crc32-IsU32 max r [] h) (
          take-append_at 4 _ _
            (omega (arith, length-le_bytes 4 (28 + key_len r.key + length r.value)))) in
      whole)

  -- Every proper prefix of an encoded record decodes to `Incomplete`.
  pub decode-torn :
      (max : ℕ) (r : Record) (front : List ℕ) (b : ℕ) (back : List ℕ)
      → IsRecord max r
      → encode crc32 r ≡ front ++ b ∷ back
      → decode crc32 front max ≡ incomplete
  unfolding decode encoded_len
  decode-torn max r front b back h split =
      let n = 28 + key_len r.key + length r.value in
      let total : length front + length (b ∷ back) ≡ 4 + n =
        omega (arith, ap length split, length-append front (b ∷ back), length-encode crc32 r) in
      elim (Bool-cases (ltb (length front) 4)) [
        | inl short ↦ rw short
        | inr long ↦
            let len : from_le_bytes (slice 0 4 front) ≡ n =
              rw (← take-append_le 4 front (b ∷ back) (ground arith), ← split, len_field max r h)
                (from_le_bytes-le_bytes 4 n (omega (arith, h.fits, h.limit))) in
            rw (len) (ground (arith, total, long, h.fits))
      ]
