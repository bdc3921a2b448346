-- ===== src/Broker/Partition/Queue.antt =====
-- The queue of a partition's thread: what a drain leaves, and when the timer runs.
use replog.Prelude.{
  ℕ, zero, suc, ◌+◌, ◌-◌, ◌<◌, ◌≤◌, ◌≡◌, ◌⊎◌, inl, inr, refl, ap, ◌∙◌, subst, Bool, true, false,
  Option, none, some, List, [], ◌∷◌, map, All, arith, Bool-cases, ltb, ◌==◌, if_cases,
  if◌then◌else◌, le→leb, not, ◌&&◌, All-append,
}
use replog.Proto.Codes.{Acks}
use replog.Storage.Config.{FsyncPolicy}
use replog.Storage.Log.{Log, next_offset, flush, checked_pred}
use replog.Broker.Partition.{
  Reply, appended, failed, Pending, Thread, Sent, covers, is_dirty, drain, drain_pending,
  mark_dirty, Batch,
}
use replog.Broker.Partition.Run.{acked_now, acknowledge, answer, finish_append, flush_all}
use replog.Broker.Partition.Appends.{IsBase, IsBatch}

-- The queue holds offsets of the log.
abbrev IsBehind : ℕ → List Pending → Type 0
IsBehind next ps = All (λ p. p.last_offset < next) ps

abbrev IsMarked : Option ℕ → Type 0
IsMarked dirty_since = (since : ℕ) × (dirty_since ≡ some since)

-- While an append is parked, the timer runs.
abbrev pub IsTimely : Thread → Type 0
IsTimely t =
    IsBehind t.log.active.next_offset t.pending × ((t.pending ≡ []) ⊎ IsMarked t.dirty_since)

-- The thread before it drains its queue.
abbrev IsReady : Thread → Type 0
IsReady t =
    IsBehind t.log.active.next_offset t.pending
    × ((is_dirty t.log ≡ false) ⊎ IsMarked t.dirty_since)

-- The answer that a parked append waits for.
abbrev pub promised : Pending → ℕ × Reply
promised p = (p.reply, appended p.base_offset p.count)

pub if_true : {A : Type 0} (x y : A) (b : Bool) → b ≡ true → (if b then x else y) ≡ x
if_true x y true e = refl
if_true x y false e = ground arith

drain_all :
    (d : ℕ) (ps : List Pending) → IsBehind (suc d) ps → drain (some d) ps ≡ (map promised ps, [])
unfolding drain covers
drain_all d [] h = refl
drain_all d (p ∷ ps) (h, hs) =
    if_true _ ([], p ∷ ps) (covers (some d) p.last_offset)
      (le→leb p.last_offset d (omega (arith, h)))
    ∙ ap
        (λ (rest : Sent × List Pending).
          ((p.reply, appended p.base_offset p.count) ∷ rest.0, rest.1))
        (drain_all d ps hs)

drain-IsBehind :
    (durable : Option ℕ) (next : ℕ) (ps : List Pending)
    → IsBehind next ps
    → IsBehind next (drain durable ps).1
unfolding drain
drain-IsBehind durable next [] h = tt
drain-IsBehind durable next (p ∷ ps) (h, hs) =
    if_cases (λ (parts : Sent × List Pending). IsBehind next parts.1) (covers durable p.last_offset)
      _ ([], p ∷ ps) (λ e. drain-IsBehind durable next ps hs) (λ e. (h, hs))

-- A log that is not dirty is empty, or durable up to its end.
is_dirty-cases :
    (next : ℕ) (durable : Option ℕ)
    → (ltb 0 next && not (elim durable [ none ↦ false | some d ↦ d == next - 1 ])) ≡ false
    → (next ≡ 0) ⊎ ((d : ℕ) × (durable ≡ some d) × (next ≡ suc d))
is_dirty-cases zero durable h = inl refl
is_dirty-cases (suc n) none h = inl (ground arith)
is_dirty-cases (suc n) (some d) h = inr (d, refl, ground arith)

IsBehind-zero : (ps : List Pending) → IsBehind 0 ps → ps ≡ []
IsBehind-zero [] h = refl
IsBehind-zero (p ∷ ps) (h, hs) = elim h [ ]

drain_pending-IsTimely : (t : Thread) → IsReady t → IsTimely (drain_pending t).0
unfolding drain_pending is_dirty next_offset
drain_pending-IsTimely t (behind, inr marked) =
    (drain-IsBehind t.log.durable_offset t.log.active.next_offset t.pending behind, inr marked)
drain_pending-IsTimely t (behind, inl clean) = (
  drain-IsBehind t.log.durable_offset t.log.active.next_offset t.pending behind,
  elim (is_dirty-cases t.log.active.next_offset t.log.durable_offset clean) [
    | inl empty ↦ inl (
        ap (λ ps. (drain t.log.durable_offset ps).1)
          (IsBehind-zero t.pending (subst (λ n. IsBehind n t.pending) empty behind))
        ∙ unfold drain in refl)
    | inr (d, durable, next) ↦ inl (
        ap (λ o. (drain o t.pending).1) durable
        ∙ ap (λ (parts : Sent × List Pending). parts.1)
            (drain_all d t.pending (subst (λ n. IsBehind n t.pending) next behind)))
  ],
)

mark_dirty-cases :
    (log : Log) (dirty_since : Option ℕ) (now : ℕ)
    → (is_dirty log ≡ false) ⊎ IsMarked (mark_dirty log dirty_since now)
unfolding mark_dirty
mark_dirty-cases log dirty_since now = elim (Bool-cases (is_dirty log)) [
  | inl dirty ↦ inr (
      rw dirty
        (elim dirty_since
          as (λ o. IsMarked (elim o [ none ↦ some now | some since ↦ some since ])) [
            | none ↦ (now, refl)
            | some since ↦ (since, refl)
          ]))
  | inr clean ↦ inl clean
]

abbrev IsReadyAfter : Thread × Sent → Type 0
IsReadyAfter after = IsReady after.0

acknowledge-IsReady :
    (policy : FsyncPolicy) (t : Thread) (acks : Acks) (base count reply : ℕ)
    → 0 < t.log.active.next_offset
    → IsReady t
    → IsReadyAfter (acknowledge policy t acks base count reply)
unfolding acknowledge next_offset
acknowledge-IsReady policy t acks base count reply some_records (behind, ready) =
    if_cases IsReadyAfter (acked_now policy acks t.log (t.log.active.next_offset - 1)) _ (_, [])
      (λ e. (behind, ready))
      (λ e. (
        All-append (λ p. p.last_offset < t.log.active.next_offset) t.pending _ behind
            (omega (arith, some_records), tt),
        ready,
      ))

answer-IsReady :
    (policy : FsyncPolicy) (t : Thread) (acks : Acks) (start : ℕ) (b : Batch) (reply : Option ℕ)
    → t.log.active.next_offset ≡ start + b.count
    → IsBase start b.count b.base_offset
    → IsReady t
    → IsReadyAfter (answer policy t acks b reply)
unfolding answer
answer-IsReady policy t acks start b none end base ready = ready
answer-IsReady policy t acks start b (some reply) end base ready =
    elim b.error
      as (λ o. IsReadyAfter (elim o [
        | some code ↦ (t, (reply, failed code) ∷ [])
        | none ↦ elim b.base_offset [
          | none ↦ (t, (reply, appended (next_offset t.log) 0) ∷ [])
          | some first ↦ acknowledge policy t acks first b.count reply
        ]
      ])) [ some code ↦ ready | none ↦ answered b.base_offset base ]
  where
    answered :
        (o : Option ℕ)
        → IsBase start b.count o
        → IsReadyAfter (elim o [
          | none ↦ (t, (reply, appended (next_offset t.log) 0) ∷ [])
          | some first ↦ acknowledge policy t acks first b.count reply
        ])
    answered none h = ready
    answered (some first) (e, positive) =
        acknowledge-IsReady policy t acks first b.count reply (omega (arith, end, positive)) ready

IsBehind-mono :
    (next next' : ℕ) (ps : List Pending) → next ≤ next' → IsBehind next ps → IsBehind next' ps
IsBehind-mono next next' [] e h = tt
IsBehind-mono next next' (p ∷ ps) e (h, hs) =
    (omega (arith, h, e), IsBehind-mono next next' ps e hs)

pub finish_append-IsTimely :
    (policy : FsyncPolicy) (t : Thread) (now : ℕ) (acks : Acks) (reply : Option ℕ) (b : Batch)
    → IsTimely t
    → IsBatch t.log.active.next_offset b
    → IsTimely (finish_append policy t now acks reply b).0
unfolding finish_append
finish_append-IsTimely policy t now acks reply b (behind, waits) (end, base) =
    drain_pending-IsTimely _ (
      answer-IsReady policy _ acks t.log.active.next_offset b reply end base (
        IsBehind-mono t.log.active.next_offset b.log.active.next_offset t.pending
            (omega (arith, end)) behind,
        mark_dirty-cases b.log t.dirty_since now,
      ))

-- A flushed log is durable up to its end, and covers the whole queue.
flush-clean :
    (next : ℕ)
    → (ltb 0 next && not (elim (checked_pred next) [ none ↦ false | some d ↦ d == next - 1 ]))
      ≡ false
unfolding checked_pred
flush-clean zero = refl
flush-clean (suc n) = ground arith

drain-checked_pred :
    (next : ℕ) (ps : List Pending)
    → IsBehind next ps
    → drain (checked_pred next) ps ≡ (map promised ps, [])
unfolding checked_pred
drain-checked_pred zero [] h = unfold drain in refl
drain-checked_pred zero (p ∷ ps) (h, hs) = elim h [ ]
drain-checked_pred (suc d) ps h = drain_all d ps h

pub flush_all-drain :
    (t : Thread) (now : ℕ)
    → IsTimely t
    → ((flush_all t now).0.pending ≡ []) × ((flush_all t now).1 ≡ map promised t.pending)
unfolding flush_all flush drain_pending
flush_all-drain t now (behind, waits) =
    let drained = drain-checked_pred t.log.active.next_offset t.pending behind in
    (
      ap (λ (parts : Sent × List Pending). parts.1) drained,
      ap (λ (parts : Sent × List Pending). parts.0) drained,
    )

pub flush_all-IsTimely : (t : Thread) (now : ℕ) → IsTimely t → IsTimely (flush_all t now).0
unfolding flush_all flush is_dirty next_offset
flush_all-IsTimely t now (behind, waits) =
    drain_pending-IsTimely _ (behind, inl (flush-clean t.log.active.next_offset))
