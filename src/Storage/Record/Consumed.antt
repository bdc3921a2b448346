-- ===== src/Storage/Record/Consumed.antt =====
-- A record that is decoded took bytes that were there.
use replog.Prelude.{
  ℕ, ◌+◌, ◌≤◌, Bool, true, false, Option, List, length, arith, slice, ltb, Bool-cases, inl, inr,
  if◌then◌else◌,
}
use replog.Prelude.Int.{ℤ, pos, negsuc}
use replog.Proto.Wire.Bytes.{from_le_bytes}
use replog.Storage.Record.{
  DecodeOutcome, decoded, incomplete, corrupt, decode_value, decode_key, decode_body,
  decode_checked, decode,
}

-- A decoded record took at least 32 bytes and at most `n`.
abbrev pub Fits : ℕ → DecodeOutcome → Type 0
Fits n (decoded r consumed) = (32 ≤ consumed) × (consumed ≤ n)
Fits n incomplete = Unit {0}
Fits n (corrupt reason) = Unit {0}

-- A test with an outcome that is no record.
Fits-refuse :
    (n : ℕ) (b : Bool) (x y : DecodeOutcome) → Fits n x → Fits n y → Fits n (if b then x else y)
Fits-refuse n true x y h k = h
Fits-refuse n false x y h k = k

module _ (n total : ℕ) (low : 32 ≤ total) (high : total ≤ n) where
  decode_value-Fits :
      (offset : ℕ) (ts : ℤ) (key : Option (List ℕ)) (at : ℕ) (body : List ℕ)
      → Fits n (decode_value offset ts key at body total)
  unfolding decode_value
  decode_value-Fits offset ts key at body =
      let took : (32 ≤ total) × (total ≤ n) = (low, high) in search Fits-refuse

  decode_key-Fits :
      (offset : ℕ) (ts kl : ℤ) (body : List ℕ) → Fits n (decode_key offset ts kl body total)
  unfolding decode_key
  decode_key-Fits offset ts (negsuc k) body = decode_value-Fits offset ts _ 20 body
  decode_key-Fits offset ts (pos kl) body =
      Fits-refuse n _ (corrupt _) _ tt (decode_value-Fits offset ts _ (20 + kl) body)

  decode_checked-Fits :
      (crc32 : List ℕ → ℕ) (buf : List ℕ) → Fits n (decode_checked crc32 buf total)
  unfolding decode_checked decode_body
  decode_checked-Fits crc32 buf =
      Fits-refuse n _ (corrupt _) _ tt (decode_key-Fits _ _ _ (slice 8 total buf))

pub decode-Fits :
    (crc32 : List ℕ → ℕ) (buf : List ℕ) (max : ℕ) → Fits (length buf) (decode crc32 buf max)
unfolding decode
decode-Fits crc32 buf max =
    let len = from_le_bytes (slice 0 4 buf) in
    elim (Bool-cases (ltb len 28)) [
      | inl small ↦ rw small (search Fits-refuse)
      | inr large ↦ elim (Bool-cases (ltb (length buf) (4 + len))) [
        | inl short ↦ rw (large, short) (search Fits-refuse)
        | inr whole ↦
            let record_fits =
              decode_checked-Fits (length buf) (4 + len) (ground (arith, large))
                (ground (arith, whole)) crc32 buf in
            rw (large, whole) (search Fits-refuse)
      ]
    ]
