-- ===== src/Storage/Segment/Recover.antt =====
-- Recovery after a crash rebuilds the segment that the appends had made.
use replog.Prelude.{
  ℕ, zero, suc, ◌+◌, ◌<◌, ◌≤◌, ◌≡◌, refl, ap, ◌∙◌, sym, true, Option, List, [], ◌∷◌, ◌++◌,
  append-nil, append_assoc, length, length-append, take, drop, take-append_exact, take-length, inl,
  inr, Bool-cases, lt→ltb, drop-append_at, arith, ltb, if◌then◌else◌, ==-refl,
}
use replog.Proto.Wire.Primitives.{IsU32}
use replog.Storage.Record.{Record, decoded, incomplete, encoded_len, encode, decode}
use replog.Storage.Record.Length.{length-encode}
use replog.Storage.Record.RoundTrip.{IsRecord, decode-encode}
use replog.Storage.Record.Torn.{decode-torn}
use replog.Storage.Config.{LogConfig, ok, ◌>>=◌}
use replog.Storage.Segment.{
  Segment, Scan, create, scan_record, scan, start_of, start_anew, finish, recover, append,
}

module _ (crc32 : List ℕ → ℕ) (config : LogConfig) where
  -- Records appended one after the other.
  abbrev pub append_all : Segment → List Record → Segment
  append_all seg [] = seg
  append_all seg (r ∷ rs) = append_all (append crc32 config seg r).0 rs

  abbrev pub encode_all : List Record → List ℕ
  encode_all [] = []
  encode_all (r ∷ rs) = encode crc32 r ++ encode_all rs

-- Records in range with the offsets from `n` on.
abbrev pub IsRun : ℕ → ℕ → List Record → Type 0
IsRun max n [] = Unit {0}
IsRun max n (r ∷ rs) = IsRecord max r × (r.offset ≡ n) × IsRun max (n + 1) rs

-- The state of a segment as the loop of `recover` sees it.
abbrev scan_state : Segment → Scan
scan_state seg = record {
  index = seg.index;
  next_offset = seg.next_offset;
  bytes_since_index = seg.bytes_since_index;
  valid_end = seg.size;
}

module _ (crc32 : List ℕ → ℕ) (crc32-IsU32 : (b : List ℕ) → IsU32 (crc32 b))
    (config : LogConfig) where
  -- The arm of the loop does to its variables what `append` did to the segment.
  scan_record-append :
      (seg : Segment) (r : Record)
      → r.offset ≡ seg.next_offset
      → scan_record crc32 config true seg.base_offset (scan_state seg) r (encoded_len r)
        ≡ ok (scan_state (append crc32 config seg r).0)
  unfolding scan_record append
  scan_record-append seg r e = rw (e, ==-refl, length-encode) refl

  -- A round of the loop on a record, and the round at the end.
  scan-record :
      (fuel base : ℕ) (s s' : Scan) (rest : List ℕ) (r : Record) (consumed : ℕ)
      → decode crc32 rest config.max_record_bytes ≡ decoded r consumed
      → scan_record crc32 config true base s r consumed ≡ ok s'
      → scan crc32 config (suc fuel) true true base s rest
        ≡ scan crc32 config fuel true true base s' (drop consumed rest)
  unfolding scan
  scan-record fuel base s s' rest r consumed d e =
      rw (scan, d)
        (ap (λ m. m >>= λ t. scan crc32 config fuel true true base t (drop consumed rest)) e)

  scan-incomplete :
      (fuel base : ℕ) (s : Scan) (rest : List ℕ)
      → decode crc32 rest config.max_record_bytes ≡ incomplete
      → scan crc32 config (suc fuel) true true base s rest ≡ ok s
  unfolding scan
  scan-incomplete fuel base s rest d = rw (scan, d) (ground arith)

  -- The loop over encoded records, in front of a tail that is no record.
  scan-encode_all :
      (fuel : ℕ) (seg : Segment) (rs : List Record) (tail : List ℕ)
      → IsRun config.max_record_bytes seg.next_offset rs
      → decode crc32 tail config.max_record_bytes ≡ incomplete
      → length rs < fuel
      → scan crc32 config fuel true true seg.base_offset
          (scan_state seg)
          (encode_all crc32 config rs ++ tail)
        ≡ ok (scan_state (append_all crc32 config seg rs))
  unfolding append
  scan-encode_all zero seg rs tail h t f = elim f [ ]
  scan-encode_all (suc fuel) seg [] tail h t f =
      scan-incomplete fuel seg.base_offset (scan_state seg) tail t
  scan-encode_all (suc fuel) seg (r ∷ rs) tail (hr, ho, hs) t f =
      let back = encode_all crc32 config rs ++ tail in
      let d = decode-encode crc32 crc32-IsU32 config.max_record_bytes r back hr in
      let s = scan_record-append seg r ho in
      let rest : drop (encoded_len r) (encode crc32 r ++ back) ≡ back =
        drop-append_at (encoded_len r) (encode crc32 r) back
          (omega (arith, length-encode crc32 r)) in
      let ih = scan-encode_all fuel (append crc32 config seg r).0 rs tail hs t (omega arith) in
      rw (append_assoc (encode crc32 r) (encode_all crc32 config rs) tail)
        (scan-record fuel seg.base_offset (scan_state seg) _ _ r (encoded_len r) d s ∙ rw (rest) ih)

  -- What the appends leave in the file.
  file-append_all :
      (seg : Segment) (rs : List Record)
      → (append_all crc32 config seg rs).file ≡ seg.file ++ encode_all crc32 config rs
  unfolding append
  file-append_all seg [] = sym (append-nil seg.file)
  file-append_all seg (r ∷ rs) =
      file-append_all (append crc32 config seg r).0 rs
      ∙ append_assoc seg.file (encode crc32 r) (encode_all crc32 config rs)

  size-append_all :
      (seg : Segment) (rs : List Record)
      → (append_all crc32 config seg rs).size ≡ seg.size + length (encode_all crc32 config rs)
  unfolding append
  size-append_all seg [] = omega arith
  size-append_all seg (r ∷ rs) = omega (
    arith,
    size-append_all (append crc32 config seg r).0 rs,
    length-append (encode crc32 r) (encode_all crc32 config rs),
  )

  base_offset-append_all :
      (seg : Segment) (rs : List Record)
      → (append_all crc32 config seg rs).base_offset ≡ seg.base_offset
  unfolding append
  base_offset-append_all seg [] = refl
  base_offset-append_all seg (r ∷ rs) = base_offset-append_all (append crc32 config seg r).0 rs

  length-encode_all : (rs : List Record) → length rs ≤ length (encode_all crc32 config rs)
  unfolding encoded_len
  length-encode_all [] = omega arith
  length-encode_all (r ∷ rs) = omega (
    arith,
    length-encode_all rs,
    length-append (encode crc32 r) (encode_all crc32 config rs),
    length-encode crc32 r,
  )

  -- `finish` cuts what stands behind the valid records.
  cut-append :
      (xs tail : List ℕ)
      → (if ltb (length xs) (length (xs ++ tail))
          then take (length xs) (xs ++ tail)
          else xs ++ tail)
        ≡ xs
  cut-append xs [] = rw (append-nil) (elim (Bool-cases (ltb (length xs) (length xs))) [
    | inl t ↦ rw t (take-length xs)
    | inr f ↦ rw f
  ])
  cut-append xs (b ∷ tail) =
      rw (lt→ltb (length xs) (length (xs ++ b ∷ tail)) (omega (arith, length-append xs (b ∷ tail))))
        (take-append_exact xs (b ∷ tail))

  finish-scan_state :
      (seg : Segment) (tail : List ℕ)
      → seg.size ≡ length seg.file
      → finish crc32 config seg.base_offset (seg.file ++ tail) (scan_state seg) ≡ seg
  unfolding finish
  finish-scan_state seg tail e = ap (λ f. record seg { file = f }) (rw e (cut-append seg.file tail))

  -- `recover` where the scan of the whole file succeeds.
  recover-scan :
      (base : ℕ) (file : List ℕ) (index_file : Option (List ℕ)) (s : Scan)
      → scan crc32 config (suc (length file)) true true base (scan_state (create base)) file ≡ ok s
      → recover crc32 config base file index_file true ≡ ok (finish crc32 config base file s)
  unfolding recover start_of start_anew create
  recover-scan base file index_file s h = rw h (ground arith)

  scan-appended :
      (fuel base : ℕ) (file : List ℕ) (rs : List Record) (tail : List ℕ)
      → IsRun config.max_record_bytes base rs
      → decode crc32 tail config.max_record_bytes ≡ incomplete
      → length rs < fuel
      → file ≡ encode_all crc32 config rs
      → scan crc32 config fuel true true base (scan_state (create base)) (file ++ tail)
        ≡ ok (scan_state (append_all crc32 config (create base) rs))
  unfolding create
  scan-appended fuel base file rs tail h t f e =
      rw e (scan-encode_all fuel (create base) rs tail h t f)

  -- A segment created at `base`, with the records `rs` appended and then a tail that is
  -- incomplete, is recovered under truncation as it was before the tail.
  pub recover-append_all :
      (base : ℕ) (rs : List Record) (tail : List ℕ) (index_file : Option (List ℕ))
      → IsRun config.max_record_bytes base rs
      → decode crc32 tail config.max_record_bytes ≡ incomplete
      → recover crc32 config base
          ((append_all crc32 config (create base) rs).file ++ tail)
          index_file
          true
        ≡ ok (append_all crc32 config (create base) rs)
  recover-append_all base rs tail index_file h t =
      let seg = append_all crc32 config (create base) rs in
      let file : seg.file ≡ encode_all crc32 config rs =
        unfold create in file-append_all (create base) rs in
      let size : seg.size ≡ length seg.file =
        unfold create in omega (arith, size-append_all (create base) rs, ap length file) in
      let fuel : length rs < suc (length (seg.file ++ tail)) =
        omega (arith, length-encode_all rs, length-append seg.file tail, ap length file) in
      let scanned =
        scan-appended (suc (length (seg.file ++ tail))) base seg.file rs tail h t fuel file in
      let base_offset : seg.base_offset ≡ base =
        unfold create in base_offset-append_all (create base) rs in
      recover-scan base (seg.file ++ tail) index_file (scan_state seg) scanned
      ∙ ap ok (
          ap (λ b. finish crc32 config b (seg.file ++ tail) (scan_state seg)) (sym base_offset)
          ∙ finish-scan_state seg tail size)

  -- A segment created at `base`, to which the records `rs` were appended before a crash cut an append
  -- of `r` short, is recovered as it was before that append: the file, the offsets and the index.
  pub recover-torn :
      (base : ℕ) (rs : List Record) (r : Record) (front : List ℕ) (b : ℕ) (back : List ℕ)
      (index_file : Option (List ℕ))
      → IsRun config.max_record_bytes base rs
      → IsRecord config.max_record_bytes r
      → encode crc32 r ≡ front ++ b ∷ back
      → recover crc32 config base
          ((append_all crc32 config (create base) rs).file ++ front)
          index_file
          true
        ≡ ok (append_all crc32 config (create base) rs)
  recover-torn base rs r front b back index_file h hr split =
      recover-append_all base rs front index_file h
        (decode-torn crc32 crc32-IsU32 config.max_record_bytes r front b back hr split)
