-- ===== src/Controller/Handle/Topics.antt =====
-- The invariant of the controller's state in `CreateTopic`.
use replog.Prelude.{
  ℕ, zero, suc, ◌+◌, ◌≤◌, ◌⊎◌, ◌%◌, ◌<◌, ◌≡◌, refl, max, true, ◌||◌, none, List, All, inl, inr,
  length, Bool-cases, Option-cases, arith, ltb, ◌==◌,
}
use replog.Prelude.Int.{pos}
use replog.Prelude.Maps.{get, insert, contains, compare_bytes}
use replog.Prelude.Maps.Laws.{All-insert, All-contains, contains_all_refl}
use replog.Proto.Wire.{as_u32, as_i32}
use replog.Controller.State.{PartitionState, State, alive_ids}
use replog.Controller.Elect.IsPartition.{IsI31, Leads, IsPartition, as_i32-pos}
use replog.Controller.Elect.AllParts.{AllParts}
use replog.Controller.Handle.{new_partition, create_topic, nth, map_from}
use replog.Controller.Handle.Brokers.{All-alive_ids, contains-nth, All-map_from}
use replog.Controller.Handle.IsState.{IsSound}

-- A partition that `create_topic` makes has replicas that are alive, and the first of them leads.
new_partition-IsPartition :
    (alive : List ℕ) (rf p : ℕ)
    → All IsI31 alive
    → 0 < rf
    → 0 < length alive
    → IsPartition (new_partition alive rf p) × Leads (new_partition alive rf p).leader alive
unfolding new_partition map_from
new_partition-IsPartition alive zero p h r n = elim r [ ]
new_partition-IsPartition alive (suc rf) p h r n =
    let replica : ℕ → ℕ = λ i. nth alive (as_u32 (p + i) % length alive) in
    let inside : (i : ℕ) → contains alive (replica i) ≡ true =
      λ i. contains-nth alive _ (grind arith) in
    let small : (i : ℕ) → IsI31 (replica i) =
      λ i. All-contains IsI31 alive (replica i) h (inside i) in
    let replicas = map_from 0 (suc rf) replica in
    let first : as_i32 (replica 0) ≡ pos (replica 0) = as_i32-pos (replica 0) (small 0) in
    (
      record {
        ids = All-map_from IsI31 replica small 0 (suc rf);
        isr_replicas = contains_all_refl replicas;
        leads = unfold nth in rw first (ground arith);
      },
      unfold nth in rw first (inside 0),
    )

pub insert_parts :
    (P : PartitionState → Type 0) (ts : List (List ℕ × List PartitionState)) (topic : List ℕ)
    (ps : List PartitionState)
    → AllParts P ts
    → All P ps
    → AllParts P (insert compare_bytes ts topic ps)
insert_parts P ts topic ps h hs = All-insert compare_bytes (λ t. All P t.1) ts topic ps h hs

-- The state that `create_topic` leaves: as it was, or with a new topic.
pub create_topic-cases :
    (state : State) (topic : List ℕ) (partitions replication_factor : ℕ)
    → let alive = alive_ids state.brokers in
      let rf = max replication_factor 1 in
      ((create_topic state topic partitions replication_factor).0.0 ≡ state)
      ⊎ ((get compare_bytes state.topics topic ≡ none)
          × (rf ≤ length alive)
          × ((create_topic state topic partitions replication_factor).0.0 ≡ record state {
            topics =
                insert compare_bytes state.topics topic
                  (map_from 0 partitions (new_partition alive rf));
          }))
unfolding create_topic
create_topic-cases state topic partitions replication_factor =
    let rf = max replication_factor 1 in
    let alive = alive_ids state.brokers in
    elim (Option-cases (get compare_bytes state.topics topic)) [
      | inr (ps, e) ↦ inl (rw (create_topic, e) refl)
      | inl e ↦
          elim (Bool-cases (partitions == 0 || (ltb 1024 partitions || ltb (length alive) rf))) [
            | inl bad ↦ inl (rw (create_topic, e, bad) refl)
            | inr good ↦ inr (e, ground arith, rw (create_topic, e, good) refl)
          ]
    ]

pub create_topic-IsSound :
    (state : State) (topic : List ℕ) (partitions replication_factor : ℕ)
    → IsSound state
    → IsSound (create_topic state topic partitions replication_factor).0.0
create_topic-IsSound state topic partitions replication_factor ((ids, parts), led) =
    let rf = max replication_factor 1 in
    let alive = alive_ids state.brokers in
    elim (create_topic-cases state topic partitions replication_factor) [
      | inl e ↦ rw e ((ids, parts), led)
      | inr (absent, room, e) ↦
          let good : (p : ℕ)
              → IsPartition (new_partition alive rf p)
                × Leads (new_partition alive rf p).leader alive =
            λ p.
              new_partition-IsPartition alive rf p (All-alive_ids state.brokers ids) (omega arith)
                (omega (arith, room)) in
          rw e (
            (
              ids,
              insert_parts IsPartition state.topics topic _ parts (
                  All-map_from IsPartition (new_partition alive rf) (λ p. (good p).0) 0 partitions),
            ),
            insert_parts (λ p. Leads p.leader alive) state.topics topic _ led
                (All-map_from (λ p. Leads p.leader alive) (new_partition alive rf) (λ p. (good p).1)
                  0 partitions),
          )
    ]
