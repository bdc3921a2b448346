-- ===== src/Storage/Log/Suffix.antt =====
-- src/storage/log.rs: reading a log and cutting its end. A segment's files are its `file` and its
-- `index`; the operating system's calls succeed.
use Prim.Native.Nat.{compare}
use replog.Prelude.{
  ℕ, zero, suc, min, true, Option, none, some, List, [], ◌∷◌, ◌++◌, take, ltb, leb, ◌==◌, ◌||◌,
  if◌then◌else◌,
}
use replog.Prelude.Maps.{get, insert}
use replog.Storage.Record.{Record}
use replog.Storage.Config.{LogConfig, Result, ok, err, panicked, stuck, offset_out_of_range}
use replog.Storage.Index
use replog.Storage.Index.{Entry}
use replog.Storage.Segment.{Segment, recover}
use replog.Storage.Segment.Read.{read_from, position_of}
use replog.Storage.Log.{Log, checked_pred, next_offset}

unfoldable pub start_offset : Log → ℕ
start_offset log = elim log.closed [ [] ↦ log.active.base_offset | e ∷ es ↦ e.0 ]

-- `closed.range(..=offset).next_back()`, behind the entry `best`.
unfoldable pub floor_from : Option (ℕ × Segment) → List (ℕ × Segment) → ℕ → Option (ℕ × Segment)
floor_from best [] offset = best
floor_from best (e ∷ es) offset =
    let later = floor_from (some e) es offset in if ltb offset e.0 then best else later

-- The closed segments whose base is at most `base`.
unfoldable pub up_to : ℕ → List (ℕ × Segment) → List (ℕ × Segment)
up_to base [] = []
up_to base (e ∷ es) = let rest = up_to base es in if leb e.0 base then e ∷ rest else rest

-- `closed.remove(&base)`
unfoldable pub remove : ℕ → List (ℕ × Segment) → List (ℕ × Segment)
remove base [] = []
remove base (e ∷ es) = let rest = remove base es in if e.0 == base then rest else e ∷ rest

-- `closed.range(..new_next).next_back()`, its key.
unfoldable pub base_below : List (ℕ × Segment) → ℕ → Option ℕ
base_below closed zero = none
base_below closed (suc before) = elim (floor_from none closed before) [
  | none ↦ none
  | some e ↦ some e.0
]

-- The base of the segment that keeps the tail; `none` is the panic of `expect`.
unfoldable pub target_base : Log → ℕ → Option ℕ
target_base log new_next =
    if new_next == start_offset log
    then some (start_offset log)
    else if ltb log.active.base_offset new_next
    then some log.active.base_offset
    else base_below log.closed new_next

-- The contents of the index file.
unfoldable pub index_file : List Entry → List ℕ
index_file [] = []
index_file (e ∷ es) = Index.encode_entry e ++ index_file es

-- The durable offset after a cut.
unfoldable pub cut_durable : Option ℕ → ℕ → Option ℕ
cut_durable none new_next = none
cut_durable (some durable) new_next = elim (checked_pred new_next) [
  | none ↦ none
  | some before ↦ some (min durable before)
]

module _ (crc32 : List ℕ → ℕ) (config : LogConfig) where
  unfoldable pub read : Log → ℕ → ℕ → Result (List Record)
  read log offset max_bytes =
      if ltb offset (start_offset log) || ltb (next_offset log) offset
      then err (offset_out_of_range offset)
      else if offset == next_offset log
      then ok []
      else if leb log.active.base_offset offset
      then read_from crc32 config log.active offset max_bytes
      else elim (floor_from none log.closed offset) [
        | none ↦ panicked
        | some e ↦ read_from crc32 config e.1 offset max_bytes
      ]

  -- `set_len` of the target's file at `position`, and its recovery; `log` has lost the segments behind
  -- the target. An error leaves the log with the shorter file.
  unfoldable pub rebuild : Log → ℕ → ℕ → Segment → ℕ → Log × Result (Unit {0})
  unfolding index_file cut_durable remove
  rebuild log new_next base seg position =
      let file = take position seg.file in
      let cut_segment : Segment = record seg { file = file } in
      let is_active = log.active.base_offset == base in
      let shortened : Log = record log {
        closed = if is_active then log.closed else insert compare log.closed base cut_segment;
        active = if is_active then cut_segment else log.active;
      } in
      elim (recover crc32 config base file (some (index_file seg.index)) true) [
        | ok rebuilt ↦ (
          record log {
            closed = remove base log.closed;
            active = rebuilt;
            durable_offset = cut_durable log.durable_offset new_next;
          },
          ok tt,
        )
        | err e ↦ (shortened, err e)
        | panicked ↦ (shortened, panicked)
        | stuck ↦ (shortened, stuck)
      ]

  -- From the removal of the segments behind the target on.
  unfoldable pub cut_at : Log → ℕ → ℕ → Log × Result (Unit {0})
  unfolding up_to
  cut_at log new_next base =
      let kept : Log = record log { closed = up_to base log.closed } in
      let target =
        if log.active.base_offset == base then some log.active else get compare kept.closed base in
      elim target [
        | none ↦ (kept, panicked)
        | some seg ↦ elim (position_of crc32 config seg new_next) [
          | ok position ↦ rebuild kept new_next base seg position
          | err e ↦ (kept, err e)
          | panicked ↦ (kept, panicked)
          | stuck ↦ (kept, stuck)
        ]
      ]

  -- The log that is left, and the result.
  unfoldable pub truncate_suffix : Log → ℕ → Log × Result (Unit {0})
  truncate_suffix log new_next =
      if leb (next_offset log) new_next
      then (log, ok tt)
      else if ltb new_next (start_offset log)
      then (log, err (offset_out_of_range new_next))
      else elim (target_base log new_next) [
        | none ↦ (log, panicked)
        | some base ↦ cut_at log new_next base
      ]
