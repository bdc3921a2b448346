-- ===== src/Proto/Meta.antt =====
-- `PartitionMeta`, `TopicMeta`, `ClusterMeta` of src/proto/mod.rs, with `put_cluster_meta` and
-- `read_cluster_meta`. A count is the length `as u32`.
pub mod RoundTrip
use replog.Prelude.{ℕ, List, [], ◌∷◌, length}
use replog.Prelude.Int.{ℤ}
use replog.Proto.Wire.{
  fields, as_u32, put_u32, put_u64, put_i32, put_str, put_each, u32, u64, i32, string, read_each,
}
use replog.Proto.Wire.Monad.{Reader, pure, ◌>>=◌}

pub record PartitionMeta : Type 0 where
  pub partition : ℕ
  -- the leading broker's id, or -1
  pub leader : ℤ
  pub leader_epoch : ℕ
  pub replicas : List ℕ
  pub isr : List ℕ

pub record TopicMeta : Type 0 where
  pub name : List ℕ
  pub partitions : List PartitionMeta

-- A broker's id with its address.
abbrev pub BrokerAddr : Type 0
BrokerAddr = ℕ × List ℕ

pub record ClusterMeta : Type 0 where
  pub version : ℕ
  pub brokers : List BrokerAddr
  pub peers : List BrokerAddr
  pub topics : List TopicMeta

unfoldable pub put_broker_addr : BrokerAddr → List ℕ
put_broker_addr b = fields (put_u32 b.0 ∷ put_str b.1 ∷ [])

unfoldable pub read_broker_addr : Reader BrokerAddr
read_broker_addr = do id ← u32; addr ← string; pure (id, addr)

unfoldable pub put_partition_meta : PartitionMeta → List ℕ
put_partition_meta p = fields (
    put_u32 p.partition
    ∷ put_i32 p.leader
    ∷ put_u64 p.leader_epoch
    ∷ put_u32 (as_u32 (length p.replicas))
    ∷ put_each put_u32 p.replicas
    ∷ put_u32 (as_u32 (length p.isr))
    ∷ put_each put_u32 p.isr
    ∷ [])

unfoldable pub read_partition_meta : Reader PartitionMeta
read_partition_meta = do
  partition ← u32
  leader ← i32
  leader_epoch ← u64
  replica_count ← u32
  replicas ← read_each replica_count u32
  isr_count ← u32
  isr ← read_each isr_count u32
  pure (record {
    partition = partition;
    leader = leader;
    leader_epoch = leader_epoch;
    replicas = replicas;
    isr = isr;
  })

unfoldable pub put_topic_meta : TopicMeta → List ℕ
put_topic_meta t = fields (
    put_str t.name
    ∷ put_u32 (as_u32 (length t.partitions))
    ∷ put_each put_partition_meta t.partitions
    ∷ [])

unfoldable pub read_topic_meta : Reader TopicMeta
read_topic_meta = do
  name ← string
  partition_count ← u32
  partitions ← read_each partition_count read_partition_meta
  pure (record { name = name; partitions = partitions })

unfoldable pub put_cluster_meta : ClusterMeta → List ℕ
put_cluster_meta meta = fields (
    put_u64 meta.version
    ∷ put_u32 (as_u32 (length meta.brokers))
    ∷ put_each put_broker_addr meta.brokers
    ∷ put_u32 (as_u32 (length meta.peers))
    ∷ put_each put_broker_addr meta.peers
    ∷ put_u32 (as_u32 (length meta.topics))
    ∷ put_each put_topic_meta meta.topics
    ∷ [])

unfoldable pub read_cluster_meta : Reader ClusterMeta
read_cluster_meta = do
  version ← u64
  broker_count ← u32
  brokers ← read_each broker_count read_broker_addr
  peer_count ← u32
  peers ← read_each peer_count read_broker_addr
  topic_count ← u32
  topics ← read_each topic_count read_topic_meta
  pure (record { version = version; brokers = brokers; peers = peers; topics = topics })
