-- ===== src/Broker/Partition/Covered.antt =====
-- The answers of a partition's thread and what the durable offset covers.
use replog.Prelude.{
  ℕ, ◌+◌, ◌-◌, ◌<◌, ◌^◌, ◌≡◌, ◌≢◌, ◌⊎◌, inl, inr, refl, subst, true, Option, none, some, List, [],
  ◌∷◌, length, All, arith, leb, if_cases, if◌then◌else◌, All-append,
}
use replog.Proto.Codes.{Acks}
use replog.Storage.Config.{FsyncPolicy, always, os, batch}
use replog.Storage.Log.{Log, next_offset}
use replog.Broker.Partition.{
  NewRecord, Cmd, Reply, appended, records_read, log_end, epoch_and_end, failed, Pending, Thread,
  Sent, covers, drain, drain_pending, mark_dirty, Batch,
}
use replog.Broker.Partition.Run.{
  Event, received, acked_now, acknowledge, answer, finish_append, flush_all, timeout,
}
use replog.Broker.Partition.Appends.{IsBase, IsBatch}

-- The log holds the records of an answered append on stable storage.
abbrev pub IsCovered : Option ℕ → Reply → Type 0
IsCovered durable (appended base count) = (count ≡ 0) ⊎ (covers durable (base + count - 1) ≡ true)
IsCovered durable (records_read start next records) = Unit {0}
IsCovered durable (log_end next) = Unit {0}
IsCovered durable (epoch_and_end epoch next) = Unit {0}
IsCovered durable (failed code) = Unit {0}

-- The produce that asks for less than stable storage, and its reply channel.
abbrev pub IsWeakAcks : Acks → Type 0
IsWeakAcks Acks.none = Unit {0}
IsWeakAcks Acks.written = Unit {0}
IsWeakAcks Acks.durable = ⊥
IsWeakAcks Acks.all = ⊥

abbrev pub IsWeak : Event → ℕ → Type 0
IsWeak (received (Cmd.append records acks (some reply))) channel =
    IsWeakAcks acks × (reply ≡ channel)
IsWeak _ channel = ⊥

-- The parked appends, each with its last offset.
abbrev pub IsParked : List Pending → Type 0
IsParked ps = All (λ p. p.base_offset + p.count ≡ p.last_offset + 1) ps

-- A batch counts its records in 32 bits.
abbrev pub IsSmall : Event → Type 0
IsSmall (received (Cmd.append records acks reply)) = length records < 2 ^ 32
IsSmall _ = Unit {0}

-- The answers of a round, and the queue behind it.
abbrev pub IsHonest : Event → Thread × Sent → Type 0
IsHonest event (t, sent) =
    All (λ s. IsWeak event s.0 ⊎ IsCovered t.log.durable_offset s.1) sent × IsParked t.pending

acked_now-covers :
    (policy : FsyncPolicy) (acks : Acks) (log : Log) (last : ℕ)
    → policy ≢ os
    → acked_now policy acks log last ≡ true
    → IsWeakAcks acks ⊎ (covers log.durable_offset last ≡ true)
unfolding acked_now
acked_now-covers policy Acks.none log last h e = inl tt
acked_now-covers policy Acks.written log last h e = inl tt
acked_now-covers always Acks.durable log last h e = inr e
acked_now-covers always Acks.all log last h e = inr e
acked_now-covers (batch b m) Acks.durable log last h e = inr e
acked_now-covers (batch b m) Acks.all log last h e = inr e
acked_now-covers os acks log last h e = elim (h refl) [ ]

-- The last offset of a parked append is the one that its answer promises.
IsCovered-parked :
    (durable : Option ℕ) (p : Pending)
    → p.base_offset + p.count ≡ p.last_offset + 1
    → covers durable p.last_offset ≡ true
    → covers durable (p.base_offset + p.count - 1) ≡ true
IsCovered-parked durable p e h = subst (λ last. covers durable last ≡ true) (omega (arith, e)) h

-- The answers and the queue that a drain makes.
abbrev IsDrained : Event → Option ℕ → Sent × List Pending → Type 0
IsDrained event durable parts =
    All (λ s. IsWeak event s.0 ⊎ IsCovered durable s.1) parts.0 × IsParked parts.1

drain-IsDrained :
    (event : Event) (durable : Option ℕ) (ps : List Pending)
    → IsParked ps
    → IsDrained event durable (drain durable ps)
unfolding drain
drain-IsDrained event durable [] h = (tt, tt)
drain-IsDrained event durable (p ∷ ps) (h, hs) =
    let rest = drain-IsDrained event durable ps hs in
    if_cases (IsDrained event durable) (covers durable p.last_offset) _ ([], p ∷ ps)
      (λ e. ((inr (inr (IsCovered-parked durable p h e)), rest.0), rest.1)) (λ e. (tt, (h, hs)))

drain_pending-IsHonest :
    (event : Event) (t : Thread) → IsParked t.pending → IsHonest event (drain_pending t)
unfolding drain_pending
drain_pending-IsHonest event t h = drain-IsDrained event t.log.durable_offset t.pending h

pub flush_all-IsHonest :
    (event : Event) (t : Thread) (now : ℕ) → IsParked t.pending → IsHonest event (flush_all t now)
unfolding flush_all
flush_all-IsHonest event t now h = drain_pending-IsHonest event _ h

pub timeout-IsHonest :
    (event : Event) (policy : FsyncPolicy) (t : Thread) (now : ℕ)
    → IsParked t.pending
    → IsHonest event (timeout policy t now)
unfolding timeout
timeout-IsHonest event always t now h = (tt, h)
timeout-IsHonest event os t now h = (tt, h)
timeout-IsHonest event (batch b ms) t now h =
    elim t.dirty_since
      as (λ o. IsHonest event (elim o [
        | none ↦ (t, [])
        | some since ↦ if leb ms (now - since) then flush_all t now else (t, [])
      ])) [
        | none ↦ (tt, h)
        | some since ↦
            if_cases (IsHonest event) (leb ms (now - since)) _ (t, [])
              (λ e. flush_all-IsHonest event t now h) (λ e. (tt, h))
      ]

acknowledge-IsHonest :
    (policy : FsyncPolicy) (t : Thread) (records : List NewRecord) (acks : Acks)
    (base count reply : ℕ)
    → policy ≢ os
    → IsParked t.pending
    → 0 < count
    → t.log.active.next_offset ≡ base + count
    → IsHonest
        (received (Cmd.append records acks (some reply)))
        (acknowledge policy t acks base count reply)
unfolding acknowledge next_offset
acknowledge-IsHonest policy t records acks base count reply flushing parked some_records end =
    let event : Event = received (Cmd.append records acks (some reply)) in
    let last = t.log.active.next_offset - 1 in
    if_cases (IsHonest event) (acked_now policy acks t.log last) _ (_, [])
      (λ e. (
        (
          elim (acked_now-covers policy acks t.log last flushing e) [
            | inl weak ↦ inl (weak, refl)
            | inr c ↦ inr (inr (subst (λ n. covers t.log.durable_offset (n - 1) ≡ true) end c))
          ],
          tt,
        ),
        parked,
      ))
      (λ e. (
        tt,
        All-append (λ p. p.base_offset + p.count ≡ p.last_offset + 1) t.pending _ parked
            (omega (arith, end, some_records), tt),
      ))

answer-IsHonest :
    (policy : FsyncPolicy) (t : Thread) (records : List NewRecord) (acks : Acks) (start : ℕ)
    (b : Batch) (reply : Option ℕ)
    → policy ≢ os
    → IsParked t.pending
    → t.log.active.next_offset ≡ start + b.count
    → IsBase start b.count b.base_offset
    → IsHonest (received (Cmd.append records acks reply)) (answer policy t acks b reply)
unfolding answer
answer-IsHonest policy t records acks start b none flushing parked same h = (tt, parked)
answer-IsHonest policy t records acks start b (some reply) flushing parked end base =
    let event : Event = received (Cmd.append records acks (some reply)) in
    elim b.error
      as (λ o. IsHonest event (elim o [
        | some code ↦ (t, (reply, failed code) ∷ [])
        | none ↦ elim b.base_offset [
          | none ↦ (t, (reply, appended (next_offset t.log) 0) ∷ [])
          | some first ↦ acknowledge policy t acks first b.count reply
        ]
      ])) [ some code ↦ ((inr tt, tt), parked) | none ↦ answered b.base_offset base ]
  where
    answered :
        (o : Option ℕ)
        → IsBase start b.count o
        → IsHonest (received (Cmd.append records acks (some reply))) (elim o [
          | none ↦ (t, (reply, appended (next_offset t.log) 0) ∷ [])
          | some first ↦ acknowledge policy t acks first b.count reply
        ])
    answered none h = ((inr (inl refl), tt), parked)
    answered (some first) (e, positive) =
        acknowledge-IsHonest policy t records acks first b.count reply flushing parked positive
          (omega (arith, end, e))

-- A drain keeps what the answers before it promised.
pub finish_append-IsHonest :
    (policy : FsyncPolicy) (t : Thread) (now start : ℕ) (records : List NewRecord) (acks : Acks)
    (reply : Option ℕ) (b : Batch)
    → policy ≢ os
    → IsParked t.pending
    → IsBatch start b
    → IsHonest (received (Cmd.append records acks reply)) (finish_append policy t now acks reply b)
unfolding finish_append drain_pending
finish_append-IsHonest policy t now start records acks reply b flushing parked (end, base) =
    let event : Event = received (Cmd.append records acks reply) in
    let written : Thread = record t {
      log = b.log;
      watched = next_offset b.log;
      dirty_since = mark_dirty b.log t.dirty_since now;
    } in
    let answered = answer policy written acks b reply in
    let first =
      answer-IsHonest policy written records acks start b reply flushing parked end base in
    let second = drain_pending-IsHonest event answered.0 first.1 in
    (
      All-append (λ s. IsWeak event s.0 ⊎ IsCovered answered.0.log.durable_offset s.1) answered.1
          (drain_pending answered.0).1 first.0 second.0,
      second.1,
    )
