-- ===== src/Storage/Segment/Reads.antt =====
-- The loops of `read_from` and `position_of` end.
use replog.Prelude.{
  ℕ, zero, suc, ◌+◌, ◌<◌, not, ◌&&◌, ◌||◌, List, [], ◌∷◌, ◌++◌, length, drop, arith, ltb, leb, ◌==◌,
  if◌then◌else◌,
}
use replog.Storage.Record.{Record, DecodeOutcome, decoded, incomplete, corrupt, decode}
use replog.Storage.Record.Consumed.{Fits, decode-Fits}
use replog.Storage.Config.{
  LogConfig, ok, err, panicked, corrupt_at, offset_out_of_range, offset_not_found, bad_record,
}
use replog.Storage.Segment.{Segment}
use replog.Storage.Segment.Terminates.{Ends, Ends-bind, Ends-if, shorter}
use replog.Storage.Segment.Read.{start_position, window, collect, read_from, locate, position_of}

window-Ends : (seg : Segment) (start : ℕ) → Ends (window seg start)
unfolding window
window-Ends seg start = Ends-if _ panicked (ok _) tt tt

module _ (crc32 : List ℕ → ℕ) (config : LogConfig) where
  collect-Ends :
      (fuel : ℕ) (seg : Segment) (offset max_bytes position out_bytes : ℕ) (out : List Record)
      (rest : List ℕ)
      → length rest < fuel
      → Ends (collect crc32 config fuel seg offset max_bytes position out_bytes out rest)
  unfolding collect
  collect-Ends zero seg offset max_bytes position out_bytes out rest f = elim f [ ]
  collect-Ends (suc fuel) seg offset max_bytes position out_bytes out rest f =
      outcome (decode crc32 rest config.max_record_bytes)
        (decode-Fits crc32 rest config.max_record_bytes)
        (λ p b o rest'. collect-Ends fuel seg offset max_bytes p b o rest')
    where
      outcome :
          (o : DecodeOutcome)
          → Fits (length rest) o
          → ((p b : ℕ) (out' : List Record) (rest' : List ℕ)
              → length rest' < fuel
              → Ends (collect crc32 config fuel seg offset max_bytes p b out' rest'))
          → Ends (elim o [
            | decoded r consumed ↦
                let skip = ltb r.offset offset in
                let bytes = if skip then out_bytes else out_bytes + consumed in
                let kept = if skip then out else out ++ r ∷ [] in
                let further =
                  collect crc32 config fuel seg offset max_bytes
                    (position + consumed)
                    bytes
                    kept
                    (drop consumed rest) in
                if not skip && (not (length out == 0) && ltb max_bytes (out_bytes + consumed))
                then ok out
                else if not skip && leb max_bytes bytes
                then ok kept
                else further
            | incomplete ↦ ok out
            | corrupt reason ↦ err (corrupt_at seg.next_offset position (bad_record reason))
          ])
      outcome (decoded r consumed) (low, high) again =
          let skip = ltb r.offset offset in
          let bytes = if skip then out_bytes else out_bytes + consumed in
          let kept = if skip then out else out ++ r ∷ [] in
          let further =
            again (position + consumed) bytes kept (drop consumed rest)
              (shorter crc32 config fuel consumed rest f low high) in
          Ends-if (not skip && (not (length out == 0) && ltb max_bytes (out_bytes + consumed)))
            (ok out) _ tt (Ends-if (not skip && leb max_bytes bytes) (ok kept) _ tt further)
      outcome incomplete h again = tt
      outcome (corrupt reason) h again = tt

  locate-Ends :
      (fuel offset position : ℕ) (rest : List ℕ)
      → length rest < fuel
      → Ends (locate crc32 config fuel offset position rest)
  unfolding locate
  locate-Ends zero offset position rest f = elim f [ ]
  locate-Ends (suc fuel) offset position rest f =
      outcome (decode crc32 rest config.max_record_bytes)
        (decode-Fits crc32 rest config.max_record_bytes)
        (λ p rest'. locate-Ends fuel offset p rest')
    where
      outcome :
          (o : DecodeOutcome)
          → Fits (length rest) o
          → ((p : ℕ) (rest' : List ℕ)
              → length rest' < fuel
              → Ends (locate crc32 config fuel offset p rest'))
          → Ends (elim o [
            | decoded r consumed ↦
                let further =
                  locate crc32 config fuel offset (position + consumed) (drop consumed rest) in
                if r.offset == offset then ok position else further
            | incomplete ↦ err (corrupt_at offset position offset_not_found)
            | corrupt reason ↦ err (corrupt_at offset position offset_not_found)
          ])
      outcome (decoded r consumed) (low, high) again =
          Ends-if (r.offset == offset) (ok position) _ tt (
            again (position + consumed) (drop consumed rest)
              (shorter crc32 config fuel consumed rest f low high))
      outcome incomplete h again = tt
      outcome (corrupt reason) h again = tt

  pub read_from-Ends :
      (seg : Segment) (offset max_bytes : ℕ) → Ends (read_from crc32 config seg offset max_bytes)
  unfolding read_from
  read_from-Ends seg offset max_bytes =
      let start = start_position seg offset in
      Ends-if _ (ok []) _ tt (
        Ends-bind (window seg start) _ (window-Ends seg start) (λ buf.
          collect-Ends (suc (length buf)) seg offset max_bytes start 0 [] buf (omega arith)))

  pub position_of-Ends : (seg : Segment) (offset : ℕ) → Ends (position_of crc32 config seg offset)
  unfolding position_of
  position_of-Ends seg offset =
      let start = start_position seg offset in
      Ends-if (ltb offset seg.base_offset || ltb seg.next_offset offset)
        (err (offset_out_of_range offset)) _ tt
        (Ends-if (offset == seg.next_offset) (ok seg.size) _ tt (
          Ends-bind (window seg start) _ (window-Ends seg start)
            (λ buf. locate-Ends (suc (length buf)) offset start buf (omega arith))))
