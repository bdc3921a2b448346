-- ===== src/Controller/Handle.antt =====
-- `Shared::handle` and `Shared::sweep_liveness` of src/controller/mod.rs: each change of the state,
-- with the flag for `mutate`. `now` is the time that `Instant::now()` returns in the call. The
-- snapshot file is left out: `mutate` only logs a failure to write it.
pub mod Brokers
pub mod IsState
pub mod Topics
pub mod AlterIsr
pub mod Step
pub mod Errors
pub mod Follows
pub mod Run
use replog.Prelude.{
  ℕ, zero, suc, ◌+◌, ◌-◌, ◌%◌, ◌^◌, max, Bool, true, false, not, ◌&&◌, ◌||◌, Option, none, some,
  List, [], ◌∷◌, map, length, get_elem?, ltb, ◌==◌, if◌then◌else◌,
}
use replog.Prelude.Int.{ℤ, to_word}
use replog.Prelude.Maps.{get, insert, compare_bytes, same, contains, contains_all}
use Prim.Native.Nat.{compare}
use replog.Proto.Codes.{ErrorCode}
use replog.Proto.Wire.{as_u32, as_i32}
use replog.Proto.Meta.{PartitionMeta, TopicMeta, ClusterMeta}
use replog.Proto.Request.{Request}
use replog.Proto.Response.{Response}
use replog.Controller.State.{BrokerState, PartitionState, State, alive_ids}
use replog.Controller.Elect.{elect_where_needed}

-- `mutate` on what its closure returned: a change counts a version.
unfoldable pub mutate : State × Bool → State
mutate (state, changed) =
    if changed then record state { version = (state.version + 1) % 2 ^ 64 } else state

-- `brokers.entry(broker_id).or_insert(..)`
unfoldable pub entry_of : Option BrokerState → List ℕ → List ℕ → ℕ → BrokerState
entry_of none addr peer_addr now = record {
  addr = addr;
  peer_addr = peer_addr;
  alive = false;
  last_heartbeat = now;
}
entry_of (some b) addr peer_addr now = b

unfoldable pub register_broker : State → ℕ → ℕ → List ℕ → List ℕ → State × Bool
register_broker state now broker_id addr peer_addr =
    let entry = entry_of (get compare state.brokers broker_id) addr peer_addr now in
    let changed =
      not entry.alive || (not (same entry.addr addr) || not (same entry.peer_addr peer_addr)) in
    let b : BrokerState = record {
      addr = addr;
      peer_addr = peer_addr;
      alive = true;
      last_heartbeat = now;
    } in
    let elected =
      elect_where_needed (record state { brokers = insert compare state.brokers broker_id b }) in
    (elected.0, changed || elected.1)

-- `known` is the lookup of the broker.
unfoldable pub broker_heartbeat : State → ℕ → ℕ → Option BrokerState → State × Bool
broker_heartbeat state now broker_id none = (state, false)
broker_heartbeat state now broker_id (some b) =
    let b' : BrokerState = record b { alive = true; last_heartbeat = now } in
    let state' : State = record state { brokers = insert compare state.brokers broker_id b' } in
    if b.alive then (state', false) else elect_where_needed state'

-- `alive[i]`; the callers stay in range.
unfoldable pub nth : List ℕ → ℕ → ℕ
nth [] i = 0
nth (x ∷ xs) zero = x
nth (x ∷ xs) (suc i) = nth xs i

-- `(i..n).map(f)`
unfoldable pub map_from : {A : Type 0} → ℕ → ℕ → (ℕ → A) → List A
map_from i zero f = []
map_from i (suc n) f = f i ∷ map_from (i + 1) n f

unfoldable pub new_partition : List ℕ → ℕ → ℕ → PartitionState
unfolding nth map_from
new_partition alive rf p =
    let replicas = map_from 0 rf (λ i. nth alive (as_u32 (p + i) % length alive)) in
    record {
      leader = as_i32 (nth replicas 0);
      leader_epoch = 1;
      replicas = replicas;
      isr = replicas;
    }

unfoldable pub create_topic : State → List ℕ → ℕ → ℕ → (State × Bool) × ErrorCode
create_topic state topic partitions replication_factor =
    let rf = max replication_factor 1 in
    let alive = alive_ids state.brokers in
    elim (get compare_bytes state.topics topic) [
      | some ps ↦ ((state, false), ErrorCode.topic_exists)
      | none ↦
          if partitions == 0 || (ltb 1024 partitions || ltb (length alive) rf)
          then ((state, false), ErrorCode.malformed_request)
          else (
            (
              record state {
                topics =
                    insert compare_bytes state.topics topic
                      (map_from 0 partitions (new_partition alive rf));
              },
              true,
            ),
            ErrorCode.none,
          )
    ]

-- The checks of `AlterIsr` on the partition: its new state, whether it changed, and the error.
unfoldable pub alter_partition : PartitionState → ℕ → List ℕ → (PartitionState × Bool) × ErrorCode
alter_partition p leader_epoch isr =
    let leader = to_word (2 ^ 31) p.leader in
    if not (leader_epoch == p.leader_epoch)
    then ((p, false), ErrorCode.fenced_epoch)
    else if length isr == 0 || (not (contains isr leader) || not (contains_all p.replicas isr))
    then ((p, false), ErrorCode.malformed_request)
    else if same p.isr isr
    then ((p, false), ErrorCode.none)
    else ((record p { isr = isr }, true), ErrorCode.none)

-- `ps.get_mut(i)`, and what is written there.
unfoldable pub set_elem : {A : Type 0} → List A → ℕ → A → List A
set_elem [] i y = []
set_elem (x ∷ xs) zero y = y ∷ xs
set_elem (x ∷ xs) (suc i) y = x ∷ set_elem xs i y

unfoldable pub alter_isr : State → List ℕ → ℕ → ℕ → List ℕ → (State × Bool) × ErrorCode
alter_isr state topic partition leader_epoch isr = elim (get compare_bytes state.topics topic) [
  | none ↦ ((state, false), ErrorCode.unknown_topic_or_partition)
  | some ps ↦ elim (get_elem? ps partition) [
    | none ↦ ((state, false), ErrorCode.unknown_topic_or_partition)
    | some p ↦
        let altered = alter_partition p leader_epoch isr in
        let state' : State = record state {
          topics = insert compare_bytes state.topics topic (set_elem ps partition altered.0.0);
        } in
        (if altered.0.1 then (state', true) else (state, false), altered.1)
  ]
]

unfoldable pub partition_metas : ℕ → List PartitionState → List PartitionMeta
partition_metas i [] = []
partition_metas i (p ∷ ps) =
    record {
      partition = as_u32 i;
      leader = p.leader;
      leader_epoch = p.leader_epoch;
      replicas = p.replicas;
      isr = p.isr;
    }
    ∷ partition_metas (i + 1) ps

unfoldable pub topic_meta : List ℕ × List PartitionState → TopicMeta
topic_meta (name, parts) = record { name = name; partitions = partition_metas 0 parts }

unfoldable pub cluster_meta : State → ClusterMeta
cluster_meta state = record {
  version = state.version;
  brokers = map (λ e. (e.0, e.1.addr)) state.brokers;
  peers = map (λ e. (e.0, e.1.peer_addr)) state.brokers;
  topics = map topic_meta state.topics;
}

-- `ClusterMeta::default()`
unfoldable pub no_cluster : ClusterMeta
no_cluster = record { version = 0; brokers = []; peers = []; topics = [] }

-- Whether the broker is known, as the error of `BrokerHeartbeat`.
unfoldable pub known_error : Option BrokerState → ErrorCode
known_error none = ErrorCode.unknown_member
known_error (some b) = ErrorCode.none

unfoldable pub handle : State → ℕ → Request → State × Response
handle state now (Request.register_broker broker_id addr peer_addr) =
    let state' = mutate (register_broker state now broker_id addr peer_addr) in
    (state', Response.register_broker ErrorCode.none state'.version)
handle state now (Request.broker_heartbeat broker_id metadata_version) =
    let found = get compare state.brokers broker_id in
    let state' = mutate (broker_heartbeat state now broker_id found) in
    (state', Response.broker_heartbeat (known_error found) state'.version)
handle state now Request.controller_metadata =
    (state, Response.controller_metadata ErrorCode.none (cluster_meta state))
handle state now (Request.create_topic topic partitions replication_factor) =
    let created = create_topic state topic partitions replication_factor in
    (mutate created.0, Response.create_topic created.1)
handle state now (Request.alter_isr topic partition leader_epoch isr) =
    let altered = alter_isr state topic partition leader_epoch isr in
    let state' = mutate altered.0 in (state', Response.alter_isr altered.1 state'.version)
handle state now _ = (state, Response.controller_metadata ErrorCode.malformed_request no_cluster)

-- The brokers after a sweep, and whether one of them was declared dead.
unfoldable pub expire : ℕ → ℕ → List (ℕ × BrokerState) → List (ℕ × BrokerState) × Bool
expire timeout now [] = ([], false)
expire timeout now ((id, b) ∷ bs) =
    let rest = expire timeout now bs in
    if b.alive && ltb timeout (now - b.last_heartbeat)
    then ((id, record b { alive = false }) ∷ rest.0, true)
    else ((id, b) ∷ rest.0, rest.1)

unfoldable pub sweep_liveness : ℕ → State → ℕ → State
sweep_liveness timeout state now =
    let expired = expire timeout now state.brokers in
    let state' : State = record state { brokers = expired.0 } in
    mutate (if expired.1 then ((elect_where_needed state').0, true) else (state', false))
