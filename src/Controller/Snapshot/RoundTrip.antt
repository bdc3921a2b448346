-- ===== src/Controller/Snapshot/RoundTrip.antt =====
-- A snapshot is loaded as the state that was written, with every broker dead.
use Prim.Native.Nat.{compare}
use replog.Prelude.{arith, ℕ, ◌≡◌, refl, append-nil, false, List, [], ◌∷◌, map, length, All, some}
use replog.Prelude.Maps.{compare_bytes, IsSorted}
use replog.Prelude.Maps.Sorted.{insert_all-IsSorted, map-IsSorted}
use replog.Proto.Result.{ok}
use replog.Proto.Wire.{as_u32, put_u64, fields, put_each, read_each, put_u32, u32, u64, expect_end}
use replog.Proto.Wire.Monad.{◌>>=◌}
use replog.Proto.Wire.Reads.{Reads, Reads-pure, Reads-bind, Reads-bind_append, Reads-last}
use replog.Proto.Wire.Primitives.{
  IsU32, IsU64, IsI32, IsString, Reads-u32, Reads-u64, Reads-i32, Reads-string, Reads-each,
  Reads-count, All-map,
}
use replog.Proto.Meta.RoundTrip.{IsVec, Reads-ids}
use replog.Controller.State.{BrokerState, PartitionState, State}
use replog.Controller.Snapshot.{
  snapshot_magic, put_broker, put_partition, put_topic, snapshot, read_broker, read_partition,
  read_topic, read_entries, parse, loaded, load_bytes, load_snapshot,
}

pub record IsBroker (e : ℕ × BrokerState) : Type 0 where
  pub id : IsU32 e.0
  pub addr : IsString e.1.addr
  pub peer_addr : IsString e.1.peer_addr

pub record IsPartition (p : PartitionState) : Type 0 where
  pub leader : IsI32 p.leader
  pub leader_epoch : IsU64 p.leader_epoch
  pub replicas : IsVec IsU32 p.replicas
  pub isr : IsVec IsU32 p.isr

pub record IsTopic (t : List ℕ × List PartitionState) : Type 0 where
  pub name : IsString t.0
  pub partitions : IsVec IsPartition t.1

-- A state that the fields of a snapshot hold, its maps in order of their keys.
pub record IsSnapshot (state : State) : Type 0 where
  pub version : IsU64 state.version
  pub brokers : IsVec IsBroker state.brokers
  pub topics : IsVec IsTopic state.topics
  pub broker_order : IsSorted compare state.brokers
  pub topic_order : IsSorted compare_bytes state.topics

-- What is left of a broker in a snapshot.
abbrev pub forget : ℕ → ℕ × BrokerState → BrokerState
forget now e = record {
  addr = e.1.addr;
  peer_addr = e.1.peer_addr;
  alive = false;
  last_heartbeat = now;
}

-- The state of which nobody is trusted as alive.
abbrev pub restarted : ℕ → State → State
restarted now state = record state { brokers = map (λ e. (e.0, forget now e)) state.brokers }

ruleset snapshot_rules =
    (Reads-pure, Reads-bind, Reads-u32, Reads-u64, Reads-i32, Reads-string, Reads-count, Reads-ids)

Reads-broker :
    (now : ℕ) (e : ℕ × BrokerState)
    → IsBroker e
    → Reads (read_broker now) (put_broker e) (e.0, forget now e)
unfolding read_broker put_broker
Reads-broker now e h = search snapshot_rules

Reads-brokers :
    (now : ℕ) (es : List (ℕ × BrokerState))
    → All IsBroker es
    → Reads
        (read_each (length es) (read_broker now))
        (put_each put_broker es)
        (map (λ e. (e.0, forget now e)) es)
unfolding read_each put_each fields
Reads-brokers now [] h = Reads-pure []
Reads-brokers now (e ∷ es) (h, hs) =
    let rest = map (λ e. (e.0, forget now e)) es in
    Reads-bind_append (read_broker now) _ (put_broker e) (put_each put_broker es)
      (e.0, forget now e) ((e.0, forget now e) ∷ rest) (Reads-broker now e h)
      (Reads-last (read_each (length es) (read_broker now)) (λ t. (e.0, forget now e) ∷ t)
        (put_each put_broker es) rest (Reads-brokers now es hs))

Reads-partition : (p : PartitionState) → IsPartition p → Reads read_partition (put_partition p) p
unfolding read_partition put_partition
Reads-partition p h = search snapshot_rules depth 12

Reads-partitions :
    (ps : List PartitionState)
    → All IsPartition ps
    → Reads (read_each (length ps) read_partition) (put_each put_partition ps) ps
Reads-partitions ps h = Reads-each put_partition read_partition ps (All-map Reads-partition ps h)

Reads-topic : (t : List ℕ × List PartitionState) → IsTopic t → Reads read_topic (put_topic t) t
unfolding read_topic put_topic
Reads-topic t h = search (snapshot_rules, Reads-partitions) depth 8

Reads-topics :
    (ts : List (List ℕ × List PartitionState))
    → All IsTopic ts
    → Reads (read_each (length ts) read_topic) (put_each put_topic ts) ts
Reads-topics ts h = Reads-each put_topic read_topic ts (All-map Reads-topic ts h)

-- The bytes behind the magic number.
abbrev put_entries : State → List ℕ
put_entries state = fields (
    put_u64 state.version
    ∷ put_u32 (as_u32 (length state.brokers))
    ∷ put_each put_broker state.brokers
    ∷ put_u32 (as_u32 (length state.topics))
    ∷ put_each put_topic state.topics
    ∷ [])

Reads-entries :
    (now : ℕ) (state : State)
    → IsSnapshot state
    → Reads
        (read_entries now)
        (put_entries state)
        (state.version, (restarted now state).brokers, state.topics)
unfolding read_entries
Reads-entries now state h =
    Reads-bind u64 _ _ _ state.version _ (Reads-u64 state.version h.version) (
      Reads-bind u32 _ _ _ (length state.brokers) _ (Reads-count state.brokers h.brokers.fits) (
        Reads-bind (read_each (length state.brokers) (read_broker now)) _ _ _
          (restarted now state).brokers _ (Reads-brokers now state.brokers h.brokers.each)
          (Reads-bind u32 _ _ _ (length state.topics) _ (Reads-count state.topics h.topics.fits) (
            Reads-bind (read_each (length state.topics) read_topic) _ _ _ state.topics _
              (Reads-topics state.topics h.topics.each)
              (Reads-pure (state.version, (restarted now state).brokers, state.topics))))))

parse-entries :
    (now : ℕ) (state : State)
    → IsSnapshot state
    → parse now (put_entries state) ≡ ok (restarted now state, [])
unfolding parse ◌>>=◌ expect_end
parse-entries now state h =
    rw
      (
        rw append-nil at ((Reads-entries now state h).at []),
        insert_all-IsSorted compare (restarted now state).brokers
            (map-IsSorted compare (forget now) state.brokers h.broker_order),
        insert_all-IsSorted compare_bytes state.topics h.topic_order,
      )
      refl

-- A state whose numbers and names fit the fields of a snapshot is loaded from its snapshot with the
-- same version, topics and brokers, and no broker alive.
pub load_snapshot-snapshot :
    (now : ℕ) (state : State)
    → IsSnapshot state
    → load_snapshot now (some (snapshot state)) ≡ loaded (restarted now state)
unfolding load_snapshot load_bytes snapshot fields
load_snapshot-snapshot now state h =
    rw
      (
        load_bytes,
        (Reads-u32 snapshot_magic (omega arith)).at (put_entries state),
        parse-entries now state h,
      )
      refl
