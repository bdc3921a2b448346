-- ===== src/Controller/Handle/Follows.antt =====
-- What one step does to a partition.
use Prim.Native.Nat.{compare}
use mathlib.Core.Option.{some-injective, none-ne-some}
use replog.Prelude.{
  ℕ, zero, suc, ◌+◌, ◌%◌, ◌^◌, ◌≡◌, refl, sym, subst, ◌∙◌, ◌⊎◌, inl, inr, Bool, true, false, Option,
  none, some, List, [], ◌∷◌, All2, arith, get_elem?, Bool-cases, if◌then◌else◌,
}
use replog.Prelude.Int.{negsuc}
use replog.Prelude.Maps.{get, insert, compare_bytes, contains}
use replog.Prelude.Maps.Laws.{contains-find_in}
use replog.Prelude.Maps.GetInsert.{is_eq, compare_bytes-IsKey, get-insert_same, get-insert_other}
use replog.Proto.Wire.{as_i32}
use replog.Proto.Request.{Request}
use replog.Controller.State.{BrokerState, PartitionState, State}
use replog.Controller.Elect.{elect, elect_parts, elect_topics, elect_where_needed}
use replog.Controller.Elect.IsPartition.{elect-cases, take_offline-leader}
use replog.Controller.Handle.{
  handle, mutate, sweep_liveness, register_broker, broker_heartbeat, create_topic, alter_isr,
  alter_partition, set_elem, expire,
}
use replog.Controller.Handle.Topics.{create_topic-cases}
use replog.Controller.Handle.AlterIsr.{alter_isr-cases, alter_partition-cases}
use replog.Controller.Handle.Step.{Step}

-- The same epoch, under the same leader or offline.
abbrev pub SameEpoch : PartitionState → PartitionState → Type 0
SameEpoch p p' =
    (p'.leader_epoch ≡ p.leader_epoch) × ((p'.leader ≡ p.leader) ⊎ (p'.leader ≡ negsuc 0))

-- A member of the ISR that leads in the next epoch.
abbrev pub NextEpoch : PartitionState → PartitionState → Type 0
NextEpoch p p' =
    (n : ℕ) × (contains p.isr n ≡ true)
    × (p'.leader ≡ as_i32 n)
    × (p'.leader_epoch ≡ (p.leader_epoch + 1) % 2 ^ 64)

pub record Follows (p p' : PartitionState) : Type 0 where
  pub replicas : p'.replicas ≡ p.replicas
  pub leads : SameEpoch p p' ⊎ NextEpoch p p'

-- Every partition that a topic had is still there, and follows what it was.
abbrev pub TopicsFollow :
    List (List ℕ × List PartitionState) → List (List ℕ × List PartitionState) → Type 0
TopicsFollow ts ts' =
    (name : List ℕ) (ps : List PartitionState)
    → get compare_bytes ts name ≡ some ps
    → (ps' : List PartitionState) × (get compare_bytes ts' name ≡ some ps') × All2 Follows ps ps'

Follows-refl : (p : PartitionState) → Follows p p
Follows-refl p = record { replicas = refl; leads = inl (refl, inl refl) }

All2-Follows_refl : (ps : List PartitionState) → All2 Follows ps ps
All2-Follows_refl [] = tt
All2-Follows_refl (p ∷ ps) = (Follows-refl p, All2-Follows_refl ps)

TopicsFollow-refl : (ts : List (List ℕ × List PartitionState)) → TopicsFollow ts ts
TopicsFollow-refl ts name ps e = (ps, e, All2-Follows_refl ps)

elect-Follows : (alive : List ℕ) (p : PartitionState) → Follows p (elect alive p).0
elect-Follows alive p = elim (elect-cases alive p) [
  | inl (e, a) ↦ rw e (Follows-refl p)
  | inr (inl (n, f, e)) ↦ rw e (record {
    replicas = refl;
    leads = inr (n, (contains-find_in alive p.isr n f).0, refl, refl);
  })
  | inr (inr (f, e)) ↦
      rw (e, take_offline-leader p p.leader refl)
        (record { replicas = refl; leads = inl (refl, inr refl) })
]

elect_parts-Follows :
    (alive : List ℕ) (ps : List PartitionState) → All2 Follows ps (elect_parts alive ps).0
unfolding elect_parts
elect_parts-Follows alive [] = tt
elect_parts-Follows alive (p ∷ ps) = (elect-Follows alive p, elect_parts-Follows alive ps)

get-elect_topics :
    (alive : List ℕ) (ts : List (List ℕ × List PartitionState)) (name : List ℕ)
    (ps : List PartitionState)
    → get compare_bytes ts name ≡ some ps
    → get compare_bytes (elect_topics alive ts).0 name ≡ some (elect_parts alive ps).0
unfolding elect_topics
get-elect_topics alive [] name ps e = ground arith
get-elect_topics alive ((topic, qs) ∷ ts) name ps e =
    ground (arith, get-elect_topics alive ts name ps)

elect_topics-Follows :
    (alive : List ℕ) (ts : List (List ℕ × List PartitionState))
    → TopicsFollow ts (elect_topics alive ts).0
elect_topics-Follows alive ts name ps e =
    ((elect_parts alive ps).0, get-elect_topics alive ts name ps e, elect_parts-Follows alive ps)

insert-Follows :
    (ts : List (List ℕ × List PartitionState)) (topic : List ℕ) (new : List PartitionState)
    → ((ps : List PartitionState) → get compare_bytes ts topic ≡ some ps → All2 Follows ps new)
    → TopicsFollow ts (insert compare_bytes ts topic new)
insert-Follows ts topic new h name ps e = elim (Bool-cases (is_eq (compare_bytes name topic))) [
  | inl k ↦
      let same : name ≡ topic = compare_bytes-IsKey.sound name topic (ground arith) in
      (
        new,
        rw same (get-insert_same compare_bytes compare_bytes-IsKey ts topic new),
        h ps (subst (λ t. get compare_bytes ts t ≡ some ps) same e),
      )
  | inr k ↦ (
    ps,
    get-insert_other compare_bytes compare_bytes-IsKey ts topic new name k ∙ e,
    All2-Follows_refl ps,
  )
]

mutate-Follows :
    (ts : List (List ℕ × List PartitionState)) (r : State × Bool)
    → TopicsFollow ts r.0.topics
    → TopicsFollow ts (mutate r).topics
unfolding mutate
mutate-Follows ts (state, true) h = h
mutate-Follows ts (state, false) h = h

broker_heartbeat-Follows :
    (state : State) (now broker_id : ℕ) (found : Option BrokerState)
    → TopicsFollow state.topics (broker_heartbeat state now broker_id found).0.topics
unfolding broker_heartbeat elect_where_needed
broker_heartbeat-Follows state now broker_id none = TopicsFollow-refl state.topics
broker_heartbeat-Follows state now broker_id (some b) = elim (Bool-cases b.alive) [
  | inl a ↦ rw a (TopicsFollow-refl state.topics)
  | inr a ↦ rw a (elect_topics-Follows _ state.topics)
]

create_topic-Follows :
    (state : State) (topic : List ℕ) (partitions replication_factor : ℕ)
    → TopicsFollow state.topics (create_topic state topic partitions replication_factor).0.0.topics
unfolding create_topic
create_topic-Follows state topic partitions replication_factor =
    elim (create_topic-cases state topic partitions replication_factor) [
      | inl e ↦ rw e (TopicsFollow-refl state.topics)
      | inr (absent, room, e) ↦ rw e (
          insert-Follows state.topics topic _ (λ ps e'. absurd (none-ne-some ps (sym absent ∙ e'))))
    ]

alter_partition-Follows :
    (p : PartitionState) (leader_epoch : ℕ) (isr : List ℕ)
    → Follows p (alter_partition p leader_epoch isr).0.0
alter_partition-Follows p leader_epoch isr = elim (alter_partition-cases p leader_epoch isr) [
  | inl e ↦ rw e (Follows-refl p)
  | inr (e, ep, c, sub) ↦ rw e (record { replicas = refl; leads = inl (refl, inl refl) })
]

set_elem-Follows :
    (ps : List PartitionState) (i : ℕ) (p p' : PartitionState)
    → get_elem? ps i ≡ some p
    → Follows p p'
    → All2 Follows ps (set_elem ps i p')
unfolding set_elem
set_elem-Follows [] i p p' e h = tt
set_elem-Follows (q ∷ ps) zero p p' e h =
    (subst (λ r. Follows r p') (sym (some-injective q p e)) h, All2-Follows_refl ps)
set_elem-Follows (q ∷ ps) (suc i) p p' e h = (Follows-refl q, set_elem-Follows ps i p p' e h)

alter_isr-Follows :
    (state : State) (topic : List ℕ) (partition leader_epoch : ℕ) (isr : List ℕ)
    → TopicsFollow state.topics (alter_isr state topic partition leader_epoch isr).0.0.topics
alter_isr-Follows state topic partition leader_epoch isr =
    elim (alter_isr-cases state topic partition leader_epoch isr) [
      | inl e ↦ rw e (TopicsFollow-refl state.topics)
      | inr (ps, p, e, f, g) ↦
          let p' = (alter_partition p leader_epoch isr).0.0 in
          rw g (
            insert-Follows state.topics topic (set_elem ps partition p') (λ qs e'.
              subst (λ rs. All2 Follows rs (set_elem ps partition p'))
                (some-injective ps qs (sym e ∙ e'))
                (set_elem-Follows ps partition p p' f
                  (alter_partition-Follows p leader_epoch isr))))
    ]

sweep_liveness-Follows :
    (timeout : ℕ) (state : State) (now : ℕ)
    → TopicsFollow state.topics (sweep_liveness timeout state now).topics
unfolding sweep_liveness elect_where_needed
sweep_liveness-Follows timeout state now =
    let expired = expire timeout now state.brokers in
    let state' : State = record state { brokers = expired.0 } in
    mutate-Follows state.topics
      (if expired.1 then ((elect_where_needed state').0, true) else (state', false))
      (elim (Bool-cases expired.1) [
        | inl e ↦ rw e (elect_topics-Follows _ state.topics)
        | inr e ↦ rw e (TopicsFollow-refl state.topics)
      ])

handle-Follows :
    (state : State) (now : ℕ) (req : Request)
    → TopicsFollow state.topics (handle state now req).0.topics
unfolding handle register_broker elect_where_needed
handle-Follows state now (Request.register_broker broker_id addr peer_addr) =
    mutate-Follows state.topics (register_broker state now broker_id addr peer_addr)
      (elect_topics-Follows _ state.topics)
handle-Follows state now (Request.broker_heartbeat broker_id metadata_version) =
    let found = get compare state.brokers broker_id in
    mutate-Follows state.topics (broker_heartbeat state now broker_id found)
      (broker_heartbeat-Follows state now broker_id found)
handle-Follows state now (Request.create_topic topic partitions replication_factor) =
    mutate-Follows state.topics (create_topic state topic partitions replication_factor).0
      (create_topic-Follows state topic partitions replication_factor)
handle-Follows state now (Request.alter_isr topic partition leader_epoch isr) =
    mutate-Follows state.topics (alter_isr state topic partition leader_epoch isr).0
      (alter_isr-Follows state topic partition leader_epoch isr)
handle-Follows state now _ = TopicsFollow-refl state.topics

-- In a step of the controller every topic keeps its partitions. Each of them keeps its replicas, and
-- either keeps its epoch, under the same leader or offline, or a member of its ISR leads it in the
-- next epoch.
pub Step-Follows :
    (timeout : ℕ) (state state' : State)
    → Step timeout state state'
    → TopicsFollow state.topics state'.topics
Step-Follows timeout _ _ (Step.handled state now req i) = handle-Follows state now req
Step-Follows timeout _ _ (Step.swept state now) = sweep_liveness-Follows timeout state now
