-- ===== src/Proto/Meta/RoundTrip.antt =====
-- Cluster metadata is read back as it was put.
use replog.Prelude.{ℕ, ◌<◌, ◌^◌, List, length, All}
use replog.Proto.Wire.{put_each, read_each, put_u32, u32}
use replog.Proto.Wire.Reads.{Reads, Reads-pure, Reads-bind}
use replog.Proto.Wire.Primitives.{
  IsU32, IsU64, IsI32, IsString, Reads-u32, Reads-u64, Reads-i32, Reads-string, Reads-each,
  Reads-count, All-map,
}
use replog.Proto.Meta.{
  BrokerAddr, PartitionMeta, TopicMeta, ClusterMeta, put_broker_addr, read_broker_addr,
  put_partition_meta, read_partition_meta, put_topic_meta, read_topic_meta, put_cluster_meta,
  read_cluster_meta,
}

-- A list that fits its u32 count, each item in range.
pub record IsVec {A : Type 0} (P : A → Type 0) (xs : List A) : Type 0 where
  pub fits : length xs < 2 ^ 32
  pub each : All P xs

pub Reads-ids :
    (xs : List ℕ) → All IsU32 xs → Reads (read_each (length xs) u32) (put_each put_u32 xs) xs
Reads-ids xs h = Reads-each put_u32 u32 xs (All-map Reads-u32 xs h)

pub record IsBrokerAddr (b : BrokerAddr) : Type 0 where
  pub id : IsU32 b.0
  pub addr : IsString b.1

pub record IsPartitionMeta (p : PartitionMeta) : Type 0 where
  pub partition : IsU32 p.partition
  pub leader : IsI32 p.leader
  pub leader_epoch : IsU64 p.leader_epoch
  pub replicas : IsVec IsU32 p.replicas
  pub isr : IsVec IsU32 p.isr

pub record IsTopicMeta (t : TopicMeta) : Type 0 where
  pub name : IsString t.name
  pub partitions : IsVec IsPartitionMeta t.partitions

pub record IsClusterMeta (m : ClusterMeta) : Type 0 where
  pub version : IsU64 m.version
  pub brokers : IsVec IsBrokerAddr m.brokers
  pub peers : IsVec IsBrokerAddr m.peers
  pub topics : IsVec IsTopicMeta m.topics

ruleset meta_rules =
    (Reads-pure, Reads-bind, Reads-u32, Reads-u64, Reads-i32, Reads-string, Reads-count, Reads-ids)

Reads-broker_addr : (b : BrokerAddr) → IsBrokerAddr b → Reads read_broker_addr (put_broker_addr b) b
unfolding read_broker_addr put_broker_addr
Reads-broker_addr b h = search meta_rules

Reads-broker_addrs :
    (bs : List BrokerAddr)
    → All IsBrokerAddr bs
    → Reads (read_each (length bs) read_broker_addr) (put_each put_broker_addr bs) bs
Reads-broker_addrs bs h =
    Reads-each put_broker_addr read_broker_addr bs (All-map Reads-broker_addr bs h)

Reads-partition_meta :
    (p : PartitionMeta) → IsPartitionMeta p → Reads read_partition_meta (put_partition_meta p) p
unfolding read_partition_meta put_partition_meta
Reads-partition_meta p h = search meta_rules depth 12

Reads-partition_metas :
    (ps : List PartitionMeta)
    → All IsPartitionMeta ps
    → Reads (read_each (length ps) read_partition_meta) (put_each put_partition_meta ps) ps
Reads-partition_metas ps h =
    Reads-each put_partition_meta read_partition_meta ps (All-map Reads-partition_meta ps h)

Reads-topic_meta : (t : TopicMeta) → IsTopicMeta t → Reads read_topic_meta (put_topic_meta t) t
unfolding read_topic_meta put_topic_meta
Reads-topic_meta t h = search (meta_rules, Reads-partition_metas) depth 8

Reads-topic_metas :
    (ts : List TopicMeta)
    → All IsTopicMeta ts
    → Reads (read_each (length ts) read_topic_meta) (put_each put_topic_meta ts) ts
Reads-topic_metas ts h =
    Reads-each put_topic_meta read_topic_meta ts (All-map Reads-topic_meta ts h)

pub Reads-cluster_meta :
    (m : ClusterMeta) → IsClusterMeta m → Reads read_cluster_meta (put_cluster_meta m) m
unfolding read_cluster_meta put_cluster_meta
Reads-cluster_meta m h = search (meta_rules, Reads-broker_addrs, Reads-topic_metas) depth 12
