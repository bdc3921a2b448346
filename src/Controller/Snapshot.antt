-- ===== src/Controller/Snapshot.antt =====
-- `persist_snapshot` and `load_snapshot` of src/controller/mod.rs: the bytes of the state file. The
-- entries of the maps are in order of their keys already.
pub mod RoundTrip
use Prim.Native.Nat.{compare}
use replog.Prelude.{
  ℕ, Bool, true, false, not, Option, none, some, List, [], ◌∷◌, length, ◌==◌, if◌then◌else◌,
}
use replog.Prelude.Maps.{insert_all, compare_bytes}
use replog.Proto.Result.{Result, ok, err, ProtoError}
use replog.Proto.Wire.{
  fields, as_u32, put_u32, put_u64, put_i32, put_str, put_each, u32, u64, i32, string, read_each,
  expect_end,
}
use replog.Proto.Wire.Monad.{Reader, pure, ◌>>=◌, ◌>>◌}
use replog.Controller.State.{BrokerState, PartitionState, State, empty}

abbrev pub snapshot_magic : ℕ
snapshot_magic = 1380729650

unfoldable pub put_broker : ℕ × BrokerState → List ℕ
put_broker e = fields (put_u32 e.0 ∷ put_str e.1.addr ∷ put_str e.1.peer_addr ∷ [])

unfoldable pub put_partition : PartitionState → List ℕ
put_partition p = fields (
    put_i32 p.leader
    ∷ put_u64 p.leader_epoch
    ∷ put_u32 (as_u32 (length p.replicas))
    ∷ put_each put_u32 p.replicas
    ∷ put_u32 (as_u32 (length p.isr))
    ∷ put_each put_u32 p.isr
    ∷ [])

unfoldable pub put_topic : List ℕ × List PartitionState → List ℕ
put_topic t = fields (put_str t.0 ∷ put_u32 (as_u32 (length t.1)) ∷ put_each put_partition t.1 ∷ [])

-- The bytes that `persist_snapshot` writes.
unfoldable pub snapshot : State → List ℕ
snapshot state = fields (
    put_u32 snapshot_magic
    ∷ put_u64 state.version
    ∷ put_u32 (as_u32 (length state.brokers))
    ∷ put_each put_broker state.brokers
    ∷ put_u32 (as_u32 (length state.topics))
    ∷ put_each put_topic state.topics
    ∷ [])

-- Nobody is alive until the next heartbeat; `now` is the time of the load.
unfoldable pub read_broker : ℕ → Reader (ℕ × BrokerState)
read_broker now = do
  id ← u32
  addr ← string
  peer_addr ← string
  pure (id, record { addr = addr; peer_addr = peer_addr; alive = false; last_heartbeat = now })

unfoldable pub read_partition : Reader PartitionState
read_partition = do
  leader ← i32
  leader_epoch ← u64
  rc ← u32
  replicas ← read_each rc u32
  ic ← u32
  isr ← read_each ic u32
  pure (record { leader = leader; leader_epoch = leader_epoch; replicas = replicas; isr = isr })

unfoldable pub read_topic : Reader (List ℕ × List PartitionState)
read_topic = do
  name ← string
  part_count ← u32
  parts ← read_each part_count read_partition
  pure (name, parts)

-- What `parse` reads before `expect_end`.
unfoldable pub read_entries :
    ℕ → Reader (ℕ × List (ℕ × BrokerState) × List (List ℕ × List PartitionState))
read_entries now = do
  version ← u64
  broker_count ← u32
  brokers ← read_each broker_count (read_broker now)
  topic_count ← u32
  topics ← read_each topic_count read_topic
  pure (version, brokers, topics)

-- `brokers.insert(id, ..)` and `topics.insert(name, parts)`, entry by entry, are `insert_all`.
unfoldable pub parse : ℕ → Reader State
parse now = do
  read ← read_entries now
  expect_end
  pure (record {
    version = read.0;
    brokers = insert_all compare [] read.1;
    topics = insert_all compare_bytes [] read.2;
  })

pub data LoadError : Type 0 where
  truncated bad_magic : LoadError
  malformed_snapshot : ProtoError → LoadError

pub data Loaded : Type 0 where
  loaded : State → Loaded
  refused : LoadError → Loaded

unfoldable pub load_bytes : ℕ → List ℕ → Loaded
load_bytes now bytes = elim (u32 bytes) [
  | err e ↦ refused LoadError.truncated
  | ok r ↦
      if not (r.0 == snapshot_magic) then refused LoadError.bad_magic else elim (parse now r.1) [
        | ok s ↦ loaded s.0
        | err e ↦ refused (LoadError.malformed_snapshot e)
      ]
]

-- `none` is a missing file.
unfoldable pub load_snapshot : ℕ → Option (List ℕ) → Loaded
load_snapshot now none = loaded empty
load_snapshot now (some bytes) = load_bytes now bytes
