-- ===== src/Storage/Log/Ends.antt =====
-- The operations of a log end.
use Prim.Native.Nat.{compare}
use replog.Prelude.Maps.{get}
use replog.Prelude.{
  ℕ, true, Option, none, some, List, [], ltb, leb, ◌==◌, if◌then◌else◌, if_cases, ◌||◌, take,
}
use replog.Prelude.Int.{ℤ}
use replog.Storage.Record.{Record}
use replog.Storage.Config.{LogConfig, Result, ok, err, panicked, stuck, offset_out_of_range}
use replog.Storage.Segment.{Segment, recover}
use replog.Storage.Segment.Terminates.{Ends, Ends-if, recover-Ends}
use replog.Storage.Segment.Read.{read_from, position_of}
use replog.Storage.Segment.Reads.{read_from-Ends, position_of-Ends}
use replog.Storage.Log.{Log, append_record, append, append_replicated, next_offset}
use replog.Storage.Log.Suffix.{
  read, rebuild, cut_at, truncate_suffix, floor_from, target_base, start_offset, up_to, index_file,
}

module _ (crc32 : List ℕ → ℕ) (config : LogConfig) where
  append_record-Ends :
      (log : Log) (now : ℕ) (r : Record) → Ends (append_record crc32 config log now r)
  unfolding append_record
  append_record-Ends log now r = Ends-if _ (err _) (ok _) tt tt

  pub append-Ends :
      (log : Log) (now : ℕ) (now_ms : ℤ) (key : Option (List ℕ)) (value : List ℕ)
      → Ends (append crc32 config log now now_ms key value)
  unfolding append
  append-Ends log now now_ms key value = append_record-Ends log now _

  pub append_replicated-Ends :
      (log : Log) (now : ℕ) (r : Record) → Ends (append_replicated crc32 config log now r)
  unfolding append_replicated
  append_replicated-Ends log now r = Ends-if _ (err _) _ tt (append_record-Ends log now r)

  pub read-Ends : (log : Log) (offset max_bytes : ℕ) → Ends (read crc32 config log offset max_bytes)
  unfolding read
  read-Ends log offset max_bytes =
      Ends-if (ltb offset (start_offset log) || ltb (next_offset log) offset)
        (err (offset_out_of_range offset)) _ tt
        (Ends-if (offset == next_offset log) (ok []) _ tt (
          Ends-if (leb log.active.base_offset offset)
            (read_from crc32 config log.active offset max_bytes) _
            (read_from-Ends crc32 config log.active offset max_bytes)
            (elim (floor_from none log.closed offset)
              as (λ o. Ends (elim o [
                | none ↦ panicked
                | some e ↦ read_from crc32 config e.1 offset max_bytes
              ])) [ none ↦ tt | some e ↦ read_from-Ends crc32 config e.1 offset max_bytes ])))

  abbrev IsEnded : Log × Result (Unit {0}) → Type 0
  IsEnded cut = Ends cut.1

  rebuild-IsEnded :
      (log : Log) (new_next base : ℕ) (seg : Segment) (position : ℕ)
      → IsEnded (rebuild crc32 config log new_next base seg position)
  unfolding rebuild
  rebuild-IsEnded log new_next base seg position =
      outcome _ _
        (recover crc32 config base (take position seg.file) (some (index_file seg.index)) true)
        (recover-Ends crc32 config base (take position seg.file) (some (index_file seg.index)) true)
    where
      outcome :
          (rebuilt_log : Segment → Log) (shortened : Log) (o : Result Segment)
          → Ends o
          → IsEnded (elim o [
            | ok rebuilt ↦ (rebuilt_log rebuilt, ok tt)
            | err e ↦ (shortened, err e)
            | panicked ↦ (shortened, panicked)
            | stuck ↦ (shortened, stuck)
          ])
      outcome rebuilt_log shortened (ok rebuilt) h = tt
      outcome rebuilt_log shortened (err e) h = tt
      outcome rebuilt_log shortened panicked h = tt
      outcome rebuilt_log shortened stuck h = h

  cut_at-IsEnded : (log : Log) (new_next base : ℕ) → IsEnded (cut_at crc32 config log new_next base)
  unfolding cut_at
  cut_at-IsEnded log new_next base =
      target
        (if log.active.base_offset == base then some log.active else get compare kept.closed base)
    where
      kept : Log
      kept = record log { closed = up_to base log.closed }

      located :
          (seg : Segment) (o : Result ℕ)
          → Ends o
          → IsEnded (elim o [
            | ok position ↦ rebuild crc32 config kept new_next base seg position
            | err e ↦ (kept, err e)
            | panicked ↦ (kept, panicked)
            | stuck ↦ (kept, stuck)
          ])
      located seg (ok position) h = rebuild-IsEnded kept new_next base seg position
      located seg (err e) h = tt
      located seg panicked h = tt
      located seg stuck h = h

      target :
          (o : Option Segment)
          → IsEnded (elim o [
            | none ↦ (kept, panicked)
            | some seg ↦ elim (position_of crc32 config seg new_next) [
              | ok position ↦ rebuild crc32 config kept new_next base seg position
              | err e ↦ (kept, err e)
              | panicked ↦ (kept, panicked)
              | stuck ↦ (kept, stuck)
            ]
          ])
      target none = tt
      target (some seg) =
          located seg (position_of crc32 config seg new_next)
            (position_of-Ends crc32 config seg new_next)

  pub truncate_suffix-IsEnded :
      (log : Log) (new_next : ℕ) → Ends (truncate_suffix crc32 config log new_next).1
  unfolding truncate_suffix
  truncate_suffix-IsEnded log new_next =
      if_cases IsEnded (leb (next_offset log) new_next) (log, ok tt) _ (λ e. tt)
        (λ e.
          if_cases IsEnded (ltb new_next (start_offset log))
            (log, err (offset_out_of_range new_next)) _ (λ e'. tt)
            (λ e'.
              elim (target_base log new_next)
                as (λ o. IsEnded (elim o [
                  | none ↦ (log, panicked)
                  | some base ↦ cut_at crc32 config log new_next base
                ])) [ none ↦ tt | some base ↦ cut_at-IsEnded log new_next base ]))
