-- ===== src/Broker/Partition/Liveness.antt =====
-- The timer of a partition's thread whose broker leads the partition.
use replog.Prelude.{
  ℕ, ◌-◌, ◌≤◌, ◌≡◌, inl, inr, refl, subst, none, some, List, [], map, leb, arith, if_cases,
  if◌then◌else◌, sym, ap, ◌∙◌, ◌⊎◌, Option-cases, le→leb, ltb,
}
use replog.Prelude.Int.{ℤ}
use replog.Storage.Config.{FsyncPolicy, always, os, batch, LogConfig, ok}
use replog.Storage.Config.Returns.{Returns, Returns-ok, Returns-bind, Returns-total}
use replog.Storage.Epoch
use replog.Storage.Epoch.{EpochCheckpoint}
use replog.Storage.Log.{Log, next_offset}
use replog.Storage.Log.Suffix.{read}
use replog.Broker.Partition.{Cmd, Thread, Sent, no_appends, append_all, log_config}
use replog.Broker.Partition.Run.{
  Event, received, timed_out, disconnected, flush_all, timeout, handle, round, read_reply,
  record_epoch,
}
use replog.Broker.Partition.Appends.{IsBatch, append_all-IsBatch}
use replog.Broker.Partition.Covered.{IsSmall}
use replog.Broker.Partition.Queue.{
  IsTimely, promised, finish_append-IsTimely, flush_all-drain, flush_all-IsTimely, if_true,
}

-- The events of a thread whose broker leads the partition.
abbrev pub IsOwn : Event → Type 0
IsOwn (received (Cmd.append_replicated records reply)) = ⊥
IsOwn (received (Cmd.truncate_to offset reply)) = ⊥
IsOwn _ = Unit {0}

abbrev IsTimelyAfter : Thread × Sent → Type 0
IsTimelyAfter after = IsTimely after.0

timeout-IsTimely :
    (policy : FsyncPolicy) (t : Thread) (now : ℕ)
    → IsTimely t
    → IsTimelyAfter (timeout policy t now)
unfolding timeout
timeout-IsTimely always t now h = h
timeout-IsTimely os t now h = h
timeout-IsTimely (batch b ms) t now h =
    elim t.dirty_since
      as (λ o. IsTimelyAfter (elim o [
        | none ↦ (t, [])
        | some since ↦ if leb ms (now - since) then flush_all t now else (t, [])
      ])) [
        | none ↦ h
        | some since ↦
            if_cases IsTimelyAfter (leb ms (now - since)) _ (t, [])
              (λ e. flush_all-IsTimely t now h) (λ e. h)
      ]

record_epoch-IsTimely : (t : Thread) (epoch : ℕ) → IsTimely t → IsTimely (record_epoch t epoch)
unfolding record_epoch
record_epoch-IsTimely t epoch h =
    if_cases IsTimely (ltb (Epoch.current_epoch t.epochs.entries) epoch) _ t
      (λ e.
        elim (Epoch.append t.epochs epoch (next_offset t.log))
          as (λ o. IsTimely (elim o [
            | Epoch.Result.ok epochs ↦ record t { epochs = epochs }
            | Epoch.Result.err x ↦ t
          ])) [ Epoch.Result.ok epochs ↦ h | Epoch.Result.err x ↦ h ])
      (λ e. h)

module _ (crc32 : List ℕ → ℕ) (config : LogConfig) where
  handle-IsTimely :
      (t : Thread) (now : ℕ) (now_ms : ℤ) (cmd : Cmd)
      → IsOwn (received cmd)
      → IsSmall (received cmd)
      → IsTimely t
      → Returns IsTimelyAfter (handle crc32 config t now now_ms cmd)
  unfolding handle
  handle-IsTimely t now now_ms (Cmd.append records acks reply) own small h =
      Returns-bind IsTimelyAfter (IsBatch t.log.active.next_offset)
        (append_all crc32 config (no_appends t.log) now now_ms records) _
        (append_all-IsBatch crc32 config t.log.active.next_offset (no_appends t.log) now now_ms
          records (omega arith, refl) (omega (arith, small)))
        (λ b s. finish_append-IsTimely config.fsync t now acks reply b h s)
  handle-IsTimely t now now_ms (Cmd.read offset max_bytes reply) own small h =
      Returns-bind IsTimelyAfter (λ r. Unit {0})
        (read_reply t (read crc32 (log_config config) t.log offset max_bytes)) _
        (Returns-total (λ r. Unit {0})
          (read_reply t (read crc32 (log_config config) t.log offset max_bytes)) (λ r. tt))
        (λ r s. h)
  handle-IsTimely t now now_ms (Cmd.append_replicated records reply) own small h = elim own [ ]
  handle-IsTimely t now now_ms (Cmd.truncate_to offset reply) own small h = elim own [ ]
  handle-IsTimely t now now_ms (Cmd.record_epoch epoch) own small h =
      record_epoch-IsTimely t epoch h
  handle-IsTimely t now now_ms (Cmd.epoch_status reply) own small h = h
  handle-IsTimely t now now_ms (Cmd.epoch_end_for epoch reply) own small h = h

  round-IsTimely :
      (t : Thread) (now : ℕ) (now_ms : ℤ) (event : Event)
      → IsOwn event
      → IsSmall event
      → IsTimely t
      → Returns IsTimelyAfter (round crc32 config t now now_ms event)
  unfolding round
  round-IsTimely t now now_ms (received cmd) own small h =
      handle-IsTimely t now now_ms cmd own small h
  round-IsTimely t now now_ms timed_out own small h = timeout-IsTimely config.fsync t now h
  round-IsTimely t now now_ms disconnected own small h = flush_all-IsTimely t now h

  -- The threads that a leader's rounds lead to.
  pub data Reached : Thread → Type 0 where
    spawned :
        (log : Log) (epochs : EpochCheckpoint) (watched : ℕ)
        → Reached (record {
          log = log;
          epochs = epochs;
          pending = [];
          dirty_since = none;
          watched = watched;
        })
    served :
        (t : Thread) (now : ℕ) (now_ms : ℤ) (event : Event) (after : Thread × Sent)
        → Reached t
        → IsOwn event
        → IsSmall event
        → round crc32 config t now now_ms event ≡ ok after
        → Reached after.0

  Reached-IsTimely : (t : Thread) → Reached t → IsTimely t
  Reached-IsTimely _ (spawned log epochs watched) = (tt, inl refl)
  Reached-IsTimely _ (served t now now_ms event after r own small e) =
      Returns-ok IsTimelyAfter (round crc32 config t now now_ms event) after e
        (round-IsTimely t now now_ms event own small (Reached-IsTimely t r))

  timeout-late :
      (t : Thread) (now max_bytes max_ms since : ℕ)
      → t.dirty_since ≡ some since
      → max_ms ≤ now - since
      → timeout (batch max_bytes max_ms) t now ≡ flush_all t now
  unfolding timeout
  timeout-late t now max_bytes max_ms since e late =
      ap
        (λ o. elim o [
          | none ↦ (t, [])
          | some s ↦ if leb max_ms (now - s) then flush_all t now else (t, [])
        ])
        e
      ∙ if_true _ (t, []) (leb max_ms (now - since)) (le→leb max_ms (now - since) late)

  timeout-idle :
      (t : Thread) (now max_bytes max_ms : ℕ)
      → t.dirty_since ≡ none
      → timeout (batch max_bytes max_ms) t now ≡ (t, [])
  unfolding timeout
  timeout-idle t now max_bytes max_ms e =
      ap
        (λ o. elim o [
          | none ↦ (t, [])
          | some s ↦ if leb max_ms (now - s) then flush_all t now else (t, [])
        ])
        e

  -- What a timeout that flushes makes of the queue.
  abbrev IsAnswered : Thread → Thread × Sent → Type 0
  IsAnswered t after = (after.0.pending ≡ []) × (after.1 ≡ map promised t.pending)

  -- In every state that rounds of a leader's thread lead to: while the queue is not empty there is a time
  -- since which the log is dirty, and, under the policy `Batch`, a timeout at least `max_ms` after that
  -- time sends each parked append its answer, in the order of the queue, and leaves the queue empty.
  pub Reached-timeout :
      (t : Thread) (now max_bytes max_ms : ℕ)
      → Reached t
      → ((since : ℕ) → t.dirty_since ≡ some since → max_ms ≤ now - since)
      → ((t.pending ≡ []) ⊎ ((since : ℕ) × (t.dirty_since ≡ some since)))
        × ((timeout (batch max_bytes max_ms) t now).0.pending ≡ [])
        × ((timeout (batch max_bytes max_ms) t now).1 ≡ map promised t.pending)
  Reached-timeout t now max_bytes max_ms r late =
      let timely = Reached-IsTimely t r in
      let answered : IsAnswered t (timeout (batch max_bytes max_ms) t now) =
        elim (Option-cases t.dirty_since) [
          | inr (since, e) ↦
              subst (IsAnswered t)
                (sym (timeout-late t now max_bytes max_ms since e (late since e)))
                (flush_all-drain t now timely)
          | inl e ↦
              subst (IsAnswered t) (sym (timeout-idle t now max_bytes max_ms e)) (idle timely.1 e)
        ] in
      (timely.1, answered.0, answered.1)
    where
      idle :
          (t.pending ≡ []) ⊎ ((since : ℕ) × (t.dirty_since ≡ some since))
          → t.dirty_since ≡ none
          → IsAnswered t (t, [])
      idle (inl empty) e = (empty, sym (ap (map promised) empty))
      idle (inr (since, m)) e = ground arith
