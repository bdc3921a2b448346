-- ===== src/Storage/Log/Durable.antt =====
-- What an append to the log promises about offsets and durability.
use replog.Prelude.{
  ℕ, zero, suc, ◌+◌, ◌<◌, ◌≡◌, refl, subst, ap, ◌∙◌, Bool, true, false, ◌&&◌, Option, none, some,
  List, arith, inl, inr, Bool-cases, ltb, if◌then◌else◌,
}
use replog.Storage.Record.{Record, encoded_len}
use replog.Storage.Config.{always, LogConfig, Result, ok, err, panicked, stuck}
use replog.Storage.Segment
use replog.Storage.Segment.{Segment}
use replog.Storage.Log.{
  Log, AppendInfo, checked_pred, flush, roll, flush_due, write_record, append_record,
}

abbrev pub IsBelow : Option ℕ → ℕ → Type 0
IsBelow none n = Unit {0}
IsBelow (some d) n = d < n

-- The durable offset is one that the log has.
abbrev pub IsLog : Log → Type 0
IsLog log = IsBelow log.durable_offset log.active.next_offset

pub checked_pred-IsBelow : (n : ℕ) → IsBelow (checked_pred n) n
unfolding checked_pred
checked_pred-IsBelow zero = tt
checked_pred-IsBelow (suc n) = omega arith

IsBelow-suc : (o : Option ℕ) (n : ℕ) → IsBelow o n → IsBelow o (n + 1)
IsBelow-suc none n h = tt
IsBelow-suc (some d) n h = omega (arith, h)

-- What a log and the answer are after an append to a log that ended at `next`.
abbrev pub Appended : ℕ → Log × AppendInfo → Type 0
Appended next (log, info) =
    IsLog log × (log.active.next_offset ≡ next + 1) × (info.durable_offset ≡ log.durable_offset)

abbrev IsAppended : ℕ → Result (Log × AppendInfo) → Type 0
IsAppended next (ok after) = Appended next after
IsAppended next (err e) = Unit {0}
IsAppended next panicked = Unit {0}
IsAppended next stuck = Unit {0}

abbrev IsDurable : ℕ → Result (Log × AppendInfo) → Type 0
IsDurable next (ok after) = after.1.durable_offset ≡ some next
IsDurable next (err e) = Unit {0}
IsDurable next panicked = Unit {0}
IsDurable next stuck = Unit {0}

plus_one : (n : ℕ) → n + 1 ≡ suc n
plus_one n = omega arith

checked_pred_suc : (n : ℕ) → checked_pred (n + 1) ≡ some n
unfolding checked_pred
checked_pred_suc n = ap checked_pred (plus_one n)

module _ (crc32 : List ℕ → ℕ) (config : LogConfig) where
  flushed-IsLog :
      (due : Bool) (log : Log) (now : ℕ) → IsLog log → IsLog (if due then flush log now else log)
  unfolding flush
  flushed-IsLog true log now h = checked_pred-IsBelow log.active.next_offset
  flushed-IsLog false log now h = h

  pub flushed-next_offset :
      (due : Bool) (log : Log) (now : ℕ)
      → (if due then flush log now else log).active.next_offset ≡ log.active.next_offset
  unfolding flush
  flushed-next_offset true log now = refl
  flushed-next_offset false log now = refl

  rolled-IsLog :
      (full : Bool) (log : Log) (now : ℕ) → IsLog log → IsLog (if full then roll log now else log)
  unfolding roll flush Segment.create
  rolled-IsLog true log now h = checked_pred-IsBelow log.active.next_offset
  rolled-IsLog false log now h = h

  pub rolled-next_offset :
      (full : Bool) (log : Log) (now : ℕ)
      → (if full then roll log now else log).active.next_offset ≡ log.active.next_offset
  unfolding roll flush Segment.create
  rolled-next_offset true log now = refl
  rolled-next_offset false log now = refl

  write_record-Appended :
      (log : Log) (now : ℕ) (r : Record)
      → IsLog log
      → Appended log.active.next_offset (write_record crc32 config log now r)
  unfolding write_record Segment.append
  write_record-Appended log now r h =
      let written = Segment.append crc32 config log.active r in
      let appended : Log = record log {
        active = written.0;
        dirty_bytes = log.dirty_bytes + written.1;
      } in
      let due = flush_due crc32 config config.fsync appended now in
      (
        flushed-IsLog due appended now (IsBelow-suc log.durable_offset log.active.next_offset h),
        flushed-next_offset due appended now,
        refl,
      )

  append_record-IsAppended :
      (log : Log) (now : ℕ) (r : Record)
      → IsLog log
      → IsAppended log.active.next_offset (append_record crc32 config log now r)
  unfolding append_record
  append_record-IsAppended log now r h =
      let full =
        ltb 0 log.active.size && ltb config.max_segment_bytes (log.active.size + encoded_len r) in
      let rolled = if full then roll log now else log in
      elim (Bool-cases (ltb config.max_record_bytes (encoded_len r))) [
        | inl big ↦ rw (append_record, big) tt
        | inr small ↦
            rw (append_record, small)
              (subst (λ next. Appended next (write_record crc32 config rolled now r))
                (rolled-next_offset full log now)
                (write_record-Appended rolled now r (rolled-IsLog full log now h)))
      ]

  -- An append that succeeds makes the log one offset longer, and answers with a durable offset that
  -- is the log's and below its end.
  pub append_record-Appended :
      (log : Log) (now : ℕ) (r : Record) (after : Log × AppendInfo)
      → IsLog log
      → append_record crc32 config log now r ≡ ok after
      → Appended log.active.next_offset after
  append_record-Appended log now r after h e =
      subst (IsAppended log.active.next_offset) e (append_record-IsAppended log now r h)

  write_record-always :
      (log : Log) (now : ℕ) (r : Record)
      → config.fsync ≡ always
      → (write_record crc32 config log now r).1.durable_offset ≡ some log.active.next_offset
  unfolding write_record Segment.append
  write_record-always log now r a =
      let written = Segment.append crc32 config log.active r in
      let appended : Log = record log {
        active = written.0;
        dirty_bytes = log.dirty_bytes + written.1;
      } in
      ap
        (λ policy.
          (if flush_due crc32 config policy appended now
            then flush appended now
            else appended).durable_offset)
        a
      ∙ unfold flush_due flush in checked_pred_suc log.active.next_offset

  append_record-IsDurable :
      (log : Log) (now : ℕ) (r : Record)
      → config.fsync ≡ always
      → IsDurable log.active.next_offset (append_record crc32 config log now r)
  unfolding append_record
  append_record-IsDurable log now r a =
      let full =
        ltb 0 log.active.size && ltb config.max_segment_bytes (log.active.size + encoded_len r) in
      let rolled = if full then roll log now else log in
      elim (Bool-cases (ltb config.max_record_bytes (encoded_len r))) [
        | inl big ↦ rw (append_record, big) tt
        | inr small ↦
            rw (append_record, small)
              (write_record-always rolled now r a ∙ ap some (rolled-next_offset full log now))
      ]

  -- Under the policy `Always`, an append that succeeds answers that its own offset is durable.
  pub append_record-always :
      (log : Log) (now : ℕ) (r : Record) (after : Log × AppendInfo)
      → config.fsync ≡ always
      → append_record crc32 config log now r ≡ ok after
      → after.1.durable_offset ≡ some log.active.next_offset
  append_record-always log now r after a e =
      subst (IsDurable log.active.next_offset) e (append_record-IsDurable log now r a)
