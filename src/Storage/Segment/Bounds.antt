-- ===== src/Storage/Segment/Bounds.antt =====
-- How much a read of a segment returns.
use replog.Prelude.{
  ℕ, zero, suc, ◌+◌, ◌≤◌, ◌≡◌, ◌⊎◌, inl, inr, refl, Bool, true, false, not, ◌&&◌, ◌||◌, List, [],
  ◌∷◌, ◌++◌, length, drop, All, All-append, arith, ltb, leb, ◌==◌, if_cases, if◌then◌else◌,
}
use replog.Storage.Record.{Record, DecodeOutcome, decoded, incomplete, corrupt, encoded_len, decode}
use replog.Storage.Record.Measured.{IsMeasured, decode-IsMeasured}
use replog.Storage.Config.{LogConfig, ok, err, corrupt_at, bad_record}
use replog.Storage.Config.Returns.{Returns, Returns-bind, Returns-if, Returns-total}
use replog.Storage.Segment.{Segment}
use replog.Storage.Segment.Read.{start_position, window, collect, read_from}

-- The bytes of the records.
abbrev pub total_len : List Record → ℕ
total_len [] = 0
total_len (r ∷ rs) = encoded_len r + total_len rs

total_len-append :
    (rs : List Record) (r : Record) → total_len (rs ++ r ∷ []) ≡ total_len rs + encoded_len r
total_len-append [] r = omega arith
total_len-append (q ∷ rs) r = omega (arith, total_len-append rs r)

-- At most `max_bytes` or one record, and nothing before `offset`.
abbrev pub IsBounded : ℕ → ℕ → List Record → Type 0
IsBounded offset max_bytes rs =
    ((total_len rs ≤ max_bytes) ⊎ (length rs ≤ 1)) × All (λ r. offset ≤ r.offset) rs

abbrev IsKept : ℕ → ℕ → ℕ → List Record → Type 0
IsKept offset max_bytes out_bytes out = (out_bytes ≡ total_len out) × IsBounded offset max_bytes out

room :
    (max_bytes out_bytes consumed : ℕ) (out : List Record) (r : Record)
    → encoded_len r ≡ consumed
    → (not (length out == 0) && ltb max_bytes (out_bytes + consumed)) ≡ false
    → out_bytes ≡ total_len out
    → (total_len (out ++ r ∷ []) ≤ max_bytes) ⊎ (length (out ++ r ∷ []) ≤ 1)
room max_bytes out_bytes consumed [] r m fits bytes = inr (omega arith)
room max_bytes out_bytes consumed (q ∷ out) r m fits bytes =
    let small : out_bytes + consumed ≤ max_bytes = ground arith in
    inl (omega (arith, small, bytes, m, total_len-append (q ∷ out) r))

collect-IsKept :
    (offset max_bytes out_bytes consumed : ℕ) (out : List Record) (r : Record) (skip : Bool)
    → ltb r.offset offset ≡ skip
    → encoded_len r ≡ consumed
    → (not skip && (not (length out == 0) && ltb max_bytes (out_bytes + consumed))) ≡ false
    → IsKept offset max_bytes out_bytes out
    → IsKept offset max_bytes
        (if skip then out_bytes else out_bytes + consumed)
        (if skip then out else out ++ r ∷ [])
collect-IsKept offset max_bytes out_bytes consumed out r true e m fits kept = kept
collect-IsKept offset max_bytes out_bytes consumed out r false e m fits (bytes, (bound, after)) =
    let longer = total_len-append out r in
    let next : offset ≤ r.offset = ground arith in
    (
      omega (arith, bytes, m, longer),
      (
        room max_bytes out_bytes consumed out r m fits bytes,
        All-append (λ q. offset ≤ q.offset) out (r ∷ []) after (next, tt),
      ),
    )

module _ (crc32 : List ℕ → ℕ) (config : LogConfig) where
  collect-IsBounded :
      (fuel : ℕ) (seg : Segment) (offset max_bytes position out_bytes : ℕ) (out : List Record)
      (rest : List ℕ)
      → IsKept offset max_bytes out_bytes out
      → Returns
          (IsBounded offset max_bytes)
          (collect crc32 config fuel seg offset max_bytes position out_bytes out rest)
  unfolding collect
  collect-IsBounded zero seg offset max_bytes position out_bytes out rest h = tt
  collect-IsBounded (suc fuel) seg offset max_bytes position out_bytes out rest h =
      outcome (decode crc32 rest config.max_record_bytes)
        (decode-IsMeasured crc32 rest config.max_record_bytes)
        (λ p b o rest'. collect-IsBounded fuel seg offset max_bytes p b o rest')
    where
      outcome :
          (o : DecodeOutcome)
          → IsMeasured o
          → ((p b : ℕ) (out' : List Record) (rest' : List ℕ)
              → IsKept offset max_bytes b out'
              → Returns
                  (IsBounded offset max_bytes)
                  (collect crc32 config fuel seg offset max_bytes p b out' rest'))
          → Returns (IsBounded offset max_bytes) (elim o [
            | decoded r consumed ↦
                let skip = ltb r.offset offset in
                let bytes = if skip then out_bytes else out_bytes + consumed in
                let kept = if skip then out else out ++ r ∷ [] in
                let further =
                  collect crc32 config fuel seg offset max_bytes
                    (position + consumed)
                    bytes
                    kept
                    (drop consumed rest) in
                if not skip && (not (length out == 0) && ltb max_bytes (out_bytes + consumed))
                then ok out
                else if not skip && leb max_bytes bytes
                then ok kept
                else further
            | incomplete ↦ ok out
            | corrupt reason ↦ err (corrupt_at seg.next_offset position (bad_record reason))
          ])
      outcome (decoded r consumed) m again =
          let skip = ltb r.offset offset in
          let bytes = if skip then out_bytes else out_bytes + consumed in
          let kept = if skip then out else out ++ r ∷ [] in
          if_cases (Returns (IsBounded offset max_bytes))
            (not skip && (not (length out == 0) && ltb max_bytes (out_bytes + consumed))) (ok out) _
            (λ e. h.1)
            (λ e.
              let next = collect-IsKept offset max_bytes out_bytes consumed out r skip refl m e h in
              if_cases (Returns (IsBounded offset max_bytes)) (not skip && leb max_bytes bytes)
                (ok kept) _ (λ f. next.1)
                (λ f. again (position + consumed) bytes kept (drop consumed rest) next))
      outcome incomplete m again = h.1
      outcome (corrupt reason) m again = tt

  pub read_from-IsBounded :
      (seg : Segment) (offset max_bytes : ℕ)
      → Returns (IsBounded offset max_bytes) (read_from crc32 config seg offset max_bytes)
  unfolding read_from
  read_from-IsBounded seg offset max_bytes =
      let start = start_position seg offset in
      Returns-if (IsBounded offset max_bytes)
        (ltb offset seg.base_offset || leb seg.next_offset offset) (ok []) _ (inl (omega arith), tt)
        (Returns-bind (IsBounded offset max_bytes) (λ buf. Unit {0}) (window seg start) _
          (Returns-total (λ buf. Unit {0}) (window seg start) (λ buf. tt))
          (λ buf u.
            collect-IsBounded (suc (length buf)) seg offset max_bytes start 0 [] buf
              (refl, (inl (omega arith), tt))))
