-- ===== src/Proto/Response/Ranges.antt =====
-- The responses whose fields are values of the source's types, and whose texts, blobs and lists fit
-- their length fields.
use replog.Prelude.{ℕ, List}
use replog.Proto.Wire.Primitives.{IsU32, IsU64, IsI64, IsString}
use replog.Proto.Records.RoundTrip.{IsFetchedRecord}
use replog.Proto.Meta.RoundTrip.{IsVec, IsClusterMeta}
use replog.Proto.Response.{
  Response, create_topic, metadata, produce, fetch, replica_fetch, epoch_check, register_broker,
  broker_heartbeat, alter_isr, controller_metadata, commit_offset, fetch_offset, join_group,
  heartbeat, leave_group,
}

pub record IsSlot (s : List ℕ × ℕ) : Type 0 where
  pub topic : IsString s.0
  pub partition : IsU32 s.1

abbrev pub IsResponse : Response → Type 0
IsResponse (create_topic e) = Unit {0}
IsResponse (metadata e c) = IsClusterMeta c
IsResponse (produce e b n) = IsU64 b × IsU32 n
IsResponse (fetch e s n rs) = IsU64 s × IsU64 n × IsVec IsFetchedRecord rs
IsResponse (replica_fetch e l n h rs) = IsU64 l × IsU64 n × IsU64 h × IsVec IsFetchedRecord rs
IsResponse (epoch_check e o) = IsU64 o
IsResponse (register_broker e v) = IsU64 v
IsResponse (broker_heartbeat e v) = IsU64 v
IsResponse (alter_isr e v) = IsU64 v
IsResponse (controller_metadata e c) = IsClusterMeta c
IsResponse (commit_offset e) = Unit {0}
IsResponse (fetch_offset e o) = IsI64 o
IsResponse (join_group e m g a) = IsString m × IsU64 g × IsVec IsSlot a
IsResponse (heartbeat e) = Unit {0}
IsResponse (leave_group e) = Unit {0}
