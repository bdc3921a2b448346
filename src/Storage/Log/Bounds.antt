-- ===== src/Storage/Log/Bounds.antt =====
-- How much a read of a log returns.
use replog.Prelude.{ℕ, ◌≡◌, inl, List, [], ◌||◌, none, some, arith, ltb, leb, ◌==◌}
use replog.Storage.Record.{Record}
use replog.Storage.Config.{LogConfig, ok, err, panicked, offset_out_of_range}
use replog.Storage.Config.Returns.{Returns, Returns-ok, Returns-if}
use replog.Storage.Segment.Read.{read_from}
use replog.Storage.Segment.Bounds.{IsBounded, read_from-IsBounded}
use replog.Storage.Log.{Log, next_offset}
use replog.Storage.Log.Suffix.{read, start_offset, floor_from}

module _ (crc32 : List ℕ → ℕ) (config : LogConfig) where
  read-Returns :
      (log : Log) (offset max_bytes : ℕ)
      → Returns (IsBounded offset max_bytes) (read crc32 config log offset max_bytes)
  unfolding read
  read-Returns log offset max_bytes =
      let P = IsBounded offset max_bytes in
      Returns-if P (ltb offset (start_offset log) || ltb (next_offset log) offset)
        (err (offset_out_of_range offset)) _ tt
        (Returns-if P (offset == next_offset log) (ok []) _ (inl (omega arith), tt)
          (Returns-if P (leb log.active.base_offset offset)
            (read_from crc32 config log.active offset max_bytes) _
            (read_from-IsBounded crc32 config log.active offset max_bytes)
            (elim (floor_from none log.closed offset)
              as (λ o. Returns P (elim o [
                | none ↦ panicked
                | some e ↦ read_from crc32 config e.1 offset max_bytes
              ])) [ none ↦ tt | some e ↦ read_from-IsBounded crc32 config e.1 offset max_bytes ])))

  -- A read that succeeds returns no record before the offset asked for, and at most `max_bytes` bytes of
  -- records or a single record, whatever the files hold.
  pub read-IsBounded :
      (log : Log) (offset max_bytes : ℕ) (rs : List Record)
      → read crc32 config log offset max_bytes ≡ ok rs
      → IsBounded offset max_bytes rs
  read-IsBounded log offset max_bytes rs e =
      Returns-ok (IsBounded offset max_bytes) (read crc32 config log offset max_bytes) rs e
        (read-Returns log offset max_bytes)
