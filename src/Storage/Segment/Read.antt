-- ===== src/Storage/Segment/Read.antt =====
-- src/storage/segment.rs: reading a segment. The bytes that are read are those of the log file up to
-- the size of the segment.
use replog.Prelude.{
  ℕ, zero, suc, ◌+◌, ◌-◌, not, ◌&&◌, ◌||◌, Option, none, some, List, [], ◌∷◌, ◌++◌, length, take,
  drop, ltb, leb, ◌==◌, if◌then◌else◌,
}
use replog.Proto.Wire.{as_u32}
use replog.Storage.Record.{Record, decoded, incomplete, corrupt, decode}
use replog.Storage.Config.{
  LogConfig, Result, ok, err, panicked, stuck, corrupt_at, offset_out_of_range, offset_not_found,
  bad_record, ◌>>=◌,
}
use replog.Storage.Index
use replog.Storage.Index.{Entry}
use replog.Storage.Segment.{Segment}

-- Where the scan for an offset starts.
unfoldable pub position_from : Option Entry → ℕ
position_from none = 0
position_from (some e) = e.1

unfoldable pub start_position : Segment → ℕ → ℕ
start_position seg offset =
    position_from (Index.lookup seg.index (as_u32 (offset - seg.base_offset)))

-- `file.take(self.size - start_pos)` behind the seek. A start behind the size is a panic at the
-- subtraction.
unfoldable pub window : Segment → ℕ → Result (List ℕ)
window seg start =
    if ltb seg.size start then panicked else ok (take (seg.size - start) (drop start seg.file))

module _ (crc32 : List ℕ → ℕ) (config : LogConfig) where
  -- The loop of `read_from`: `rest` is `buf[pos..]`, `position` is `start_pos + pos`.
  unfoldable pub collect : ℕ → Segment → ℕ → ℕ → ℕ → ℕ → List Record → List ℕ → Result (List Record)
  collect zero seg offset max_bytes position out_bytes out rest = stuck
  collect (suc fuel) seg offset max_bytes position out_bytes out rest =
      elim (decode crc32 rest config.max_record_bytes) [
        | decoded r consumed ↦
            let skip = ltb r.offset offset in
            let bytes = if skip then out_bytes else out_bytes + consumed in
            let kept = if skip then out else out ++ r ∷ [] in
            let further =
              collect fuel seg offset max_bytes (position + consumed) bytes kept
                (drop consumed rest) in
            if not skip && (not (length out == 0) && ltb max_bytes (out_bytes + consumed))
            then ok out
            else if not skip && leb max_bytes bytes
            then ok kept
            else further
        | incomplete ↦ ok out
        | corrupt reason ↦ err (corrupt_at seg.next_offset position (bad_record reason))
      ]

  unfoldable pub read_from : Segment → ℕ → ℕ → Result (List Record)
  read_from seg offset max_bytes =
      let start = start_position seg offset in
      if ltb offset seg.base_offset || leb seg.next_offset offset
      then ok []
      else window seg start >>= λ buf.
          collect (suc (length buf)) seg offset max_bytes start 0 [] buf

  -- The loop of `position_of`.
  unfoldable pub locate : ℕ → ℕ → ℕ → List ℕ → Result ℕ
  locate zero offset position rest = stuck
  locate (suc fuel) offset position rest = elim (decode crc32 rest config.max_record_bytes) [
    | decoded r consumed ↦
        let further = locate fuel offset (position + consumed) (drop consumed rest) in
        if r.offset == offset then ok position else further
    | incomplete ↦ err (corrupt_at offset position offset_not_found)
    | corrupt reason ↦ err (corrupt_at offset position offset_not_found)
  ]

  unfoldable pub position_of : Segment → ℕ → Result ℕ
  position_of seg offset =
      let start = start_position seg offset in
      if ltb offset seg.base_offset || ltb seg.next_offset offset
      then err (offset_out_of_range offset)
      else if offset == seg.next_offset
      then ok seg.size
      else window seg start >>= λ buf. locate (suc (length buf)) offset start buf
