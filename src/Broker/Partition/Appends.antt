-- ===== src/Broker/Partition/Appends.antt =====
-- What the loop over the records of an append leaves.
use replog.Prelude.{
  ℕ, ◌+◌, ◌<◌, ◌^◌, ◌≡◌, refl, sym, subst, ◌∙◌, Option, none, some, List, [], ◌∷◌, length, arith,
  ltb, ◌&&◌, if◌then◌else◌,
}
use replog.Prelude.Int.{ℤ}
use replog.Proto.Wire.{as_u32}
use replog.Storage.Record.{Record, encoded_len}
use replog.Storage.Config.{LogConfig, Result, ok, err, panicked, stuck}
use replog.Storage.Config.Returns.{Returns, Returns-if}
use replog.Storage.Segment
use replog.Storage.Log
use replog.Storage.Log.{Log, AppendInfo, append_record, write_record, roll, flush_due}
use replog.Storage.Log.Durable.{flushed-next_offset, rolled-next_offset}
use replog.Broker.Partition.{NewRecord, Batch, append_all, log_config, or_insert, map_storage_err}

-- The first offset, in a batch of `count` records behind `start`.
abbrev pub IsBase : ℕ → ℕ → Option ℕ → Type 0
IsBase start count none = count ≡ 0
IsBase start count (some base) = (base ≡ start) × (0 < count)

-- The batch appended `count` records to a log that ended at `start`.
abbrev pub IsBatch : ℕ → Batch → Type 0
IsBatch start b = (b.log.active.next_offset ≡ start + b.count) × IsBase start b.count b.base_offset

-- An append to a log that ended at `next`.
abbrev IsNext : ℕ → Log × AppendInfo → Type 0
IsNext next done = (done.0.active.next_offset ≡ next + 1) × (done.1.offset ≡ next)

as_u32_small : (n : ℕ) → n < 2 ^ 32 → as_u32 n ≡ n
as_u32_small n h = grind arith

IsBase-or_insert :
    (start count : ℕ) (base : Option ℕ) (offset : ℕ)
    → offset ≡ start + count
    → IsBase start count base
    → IsBase start (count + 1) (or_insert base offset)
unfolding or_insert
IsBase-or_insert start count none offset e h = (omega (arith, e, h), omega arith)
IsBase-or_insert start count (some base) offset e h = (h.0, omega arith)

module _ (crc32 : List ℕ → ℕ) (config : LogConfig) where
  write_record-IsNext :
      (log : Log) (now : ℕ) (r : Record)
      → r.offset ≡ log.active.next_offset
      → IsNext log.active.next_offset (write_record crc32 config log now r)
  unfolding write_record Segment.append
  write_record-IsNext log now r e =
      let written = Segment.append crc32 config log.active r in
      let appended : Log = record log {
        active = written.0;
        dirty_bytes = log.dirty_bytes + written.1;
      } in
      (
        flushed-next_offset crc32 config (flush_due crc32 config config.fsync appended now) appended
            now,
        e,
      )

  append_record-IsNext :
      (log : Log) (now : ℕ) (r : Record)
      → r.offset ≡ log.active.next_offset
      → Returns (IsNext log.active.next_offset) (append_record crc32 config log now r)
  unfolding append_record
  append_record-IsNext log now r e =
      let full =
        ltb 0 log.active.size && ltb config.max_segment_bytes (log.active.size + encoded_len r) in
      let rolled = if full then roll log now else log in
      let same = rolled-next_offset crc32 config full log now in
      Returns-if (IsNext log.active.next_offset) (ltb config.max_record_bytes (encoded_len r)) _
        (ok _) tt
        (subst (λ next. IsNext next (write_record crc32 config rolled now r)) same
          (write_record-IsNext rolled now r (e ∙ sym same)))

  append-IsNext :
      (log : Log) (now : ℕ) (now_ms : ℤ) (key : Option (List ℕ)) (value : List ℕ)
      → Returns (IsNext log.active.next_offset) (Log.append crc32 config log now now_ms key value)
  unfolding Log.append
  append-IsNext log now now_ms key value = append_record-IsNext log now _ refl

module _ (crc32 : List ℕ → ℕ) (config : LogConfig) where
  pub append_all-IsBatch :
      (start : ℕ) (b : Batch) (now : ℕ) (now_ms : ℤ) (rs : List NewRecord)
      → IsBatch start b
      → b.count + length rs < 2 ^ 32
      → Returns (IsBatch start) (append_all crc32 config b now now_ms rs)
  unfolding append_all
  append_all-IsBatch start b now now_ms [] h small = h
  append_all-IsBatch start b now now_ms (r ∷ rs) h small =
      outcome (Log.append crc32 (log_config config) b.log now now_ms r.0 r.1)
        (append-IsNext crc32 (log_config config) b.log now now_ms r.0 r.1)
        (λ b' h' small'. append_all-IsBatch start b' now now_ms rs h' small')
    where
      outcome :
          (o : Result (Log × AppendInfo))
          → Returns (IsNext b.log.active.next_offset) o
          → ((b' : Batch)
              → IsBatch start b'
              → b'.count + length rs < 2 ^ 32
              → Returns (IsBatch start) (append_all crc32 config b' now now_ms rs))
          → Returns (IsBatch start) (elim o [
            | ok done ↦
                append_all crc32 config
                  (record {
                    log = done.0;
                    base_offset = or_insert b.base_offset done.1.offset;
                    count = as_u32 (b.count + 1);
                    error = none;
                  })
                  now
                  now_ms
                  rs
            | err e ↦ ok (record b { error = some (map_storage_err e) })
            | panicked ↦ panicked
            | stuck ↦ stuck
          ])
      outcome (ok done) (longer, offset) again =
          let count = as_u32_small (b.count + 1) (omega (arith, small)) in
          again _
            (
              longer ∙ omega (arith, h.0, count),
              subst (λ n. IsBase start n (or_insert b.base_offset done.1.offset)) (sym count)
                  (IsBase-or_insert start b.count b.base_offset done.1.offset (offset ∙ h.0) h.1),
            )
            (omega (arith, small, count))
      outcome (err e) n again = h
      outcome panicked n again = tt
      outcome stuck n again = tt
