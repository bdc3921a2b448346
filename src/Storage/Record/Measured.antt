-- ===== src/Storage/Record/Measured.antt =====
-- A record that is decoded has the length of the bytes that it took.
use replog.Prelude.{
  ℕ, ◌+◌, ◌-◌, ◌≤◌, ◌≡◌, not, Option, none, some, List, length, drop, slice, length-take,
  length-drop, arith, ltb, ◌==◌, if_cases,
}
use replog.Prelude.Int.{ℤ, pos, negsuc}
use replog.Proto.Wire.Bytes.{from_le_bytes}
use replog.Storage.Record.{
  DecodeOutcome, decoded, incomplete, corrupt, small_length, large_length, key_overruns,
  value_mismatch, crc_mismatch, missing_value_length, key_len, encoded_len, decode_value,
  decode_key, decode_body, decode_checked, decode,
}

abbrev pub IsMeasured : DecodeOutcome → Type 0
IsMeasured (decoded r consumed) = encoded_len r ≡ consumed
IsMeasured incomplete = Unit {0}
IsMeasured (corrupt reason) = Unit {0}

length-slice :
    (from to : ℕ) (xs : List ℕ) → from ≤ to → to ≤ length xs → length (slice from to xs) ≡ to - from
length-slice from to xs h k =
    omega (arith, h, k, length-take (to - from) (drop from xs), length-drop from xs)

decode_value-IsMeasured :
    (offset : ℕ) (ts : ℤ) (key : Option (List ℕ)) (at : ℕ) (body : List ℕ) (total : ℕ)
    → key_len key + 20 ≡ at
    → length body + 8 ≡ total
    → IsMeasured (decode_value offset ts key at body total)
unfolding decode_value encoded_len
decode_value-IsMeasured offset ts key at body total k t =
    if_cases IsMeasured (ltb (length body) (at + 4)) (corrupt missing_value_length) _ (λ e. tt)
      (λ e.
        if_cases IsMeasured (not (length body == at + 4 + from_le_bytes (slice at (at + 4) body)))
          (corrupt (value_mismatch _)) (decoded _ total) (λ f. tt)
          (λ f.
            let room : at + 4 ≤ length body = ground arith in
            omega (arith, k, t, room, length-drop (at + 4) body)))

decode_key-IsMeasured :
    (offset : ℕ) (ts kl : ℤ) (body : List ℕ) (total : ℕ)
    → length body + 8 ≡ total
    → IsMeasured (decode_key offset ts kl body total)
unfolding decode_key
decode_key-IsMeasured offset ts (negsuc k) body total t =
    decode_value-IsMeasured offset ts none 20 body total (omega arith) t
decode_key-IsMeasured offset ts (pos kl) body total t =
    if_cases IsMeasured (ltb (length body) (20 + kl + 4)) (corrupt (key_overruns kl)) _ (λ e. tt)
      (λ e.
        let room : 20 + kl + 4 ≤ length body = ground arith in
        decode_value-IsMeasured offset ts (some (slice 20 (20 + kl) body)) (20 + kl) body total
          (omega (arith, room, length-slice 20 (20 + kl) body (omega arith) (omega (arith, room))))
          t)

decode_checked-IsMeasured :
    (crc32 : List ℕ → ℕ) (buf : List ℕ) (total : ℕ)
    → 8 ≤ total
    → total ≤ length buf
    → IsMeasured (decode_checked crc32 buf total)
unfolding decode_checked decode_body
decode_checked-IsMeasured crc32 buf total low high =
    let body = slice 8 total buf in
    if_cases IsMeasured (not (from_le_bytes (slice 4 8 buf) == crc32 body))
      (corrupt (crc_mismatch _ _)) _ (λ e. tt)
      (λ e.
        decode_key-IsMeasured _ _ _ body total
          (omega (arith, low, high, length-slice 8 total buf low high)))

-- The length of a record that is decoded, as `encoded_len` counts it, is what the decoder took.
pub decode-IsMeasured :
    (crc32 : List ℕ → ℕ) (buf : List ℕ) (max : ℕ) → IsMeasured (decode crc32 buf max)
unfolding decode
decode-IsMeasured crc32 buf max =
    let len = from_le_bytes (slice 0 4 buf) in
    if_cases IsMeasured (ltb (length buf) 4) incomplete _ (λ e. tt)
      (λ e.
        if_cases IsMeasured (ltb len 28) (corrupt (small_length len)) _ (λ f. tt)
          (λ f.
            if_cases IsMeasured (ltb max len) (corrupt (large_length len)) _ (λ g. tt)
              (λ g.
                if_cases IsMeasured (ltb (length buf) (4 + len)) incomplete _ (λ h. tt)
                  (λ h.
                    let low : 8 ≤ 4 + len = ground arith in
                    let high : 4 + len ≤ length buf = ground arith in
                    decode_checked-IsMeasured crc32 buf (4 + len) low high))))
