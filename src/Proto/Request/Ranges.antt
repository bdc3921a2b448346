-- ===== src/Proto/Request/Ranges.antt =====
-- The requests whose fields are values of the source's types, and whose texts, blobs and lists fit
-- their length fields.
use replog.Proto.Wire.Primitives.{IsU32, IsU64, IsString}
use replog.Proto.Records.RoundTrip.{IsProduceRecord}
use replog.Proto.Meta.RoundTrip.{IsVec}
use replog.Proto.Request.{
  Request, create_topic, metadata, produce, fetch, replica_fetch, epoch_check, register_broker,
  broker_heartbeat, alter_isr, controller_metadata, commit_offset, fetch_offset, join_group,
  heartbeat, leave_group,
}

abbrev pub IsRequest : Request → Type 0
IsRequest (create_topic t p f) = IsString t × IsU32 p × IsU32 f
IsRequest metadata = Unit {0}
IsRequest (produce t p a e rs) = IsString t × IsU32 p × IsU64 e × IsVec IsProduceRecord rs
IsRequest (fetch t p o b w) = IsString t × IsU32 p × IsU64 o × IsU32 b × IsU32 w
IsRequest (replica_fetch t p f e o b w) =
    IsString t × IsU32 p × IsU32 f × IsU64 e × IsU64 o × IsU32 b × IsU32 w
IsRequest (epoch_check t p e) = IsString t × IsU32 p × IsU64 e
IsRequest (register_broker b a pa) = IsU32 b × IsString a × IsString pa
IsRequest (broker_heartbeat b v) = IsU32 b × IsU64 v
IsRequest (alter_isr t p e isr) = IsString t × IsU32 p × IsU64 e × IsVec IsU32 isr
IsRequest controller_metadata = Unit {0}
IsRequest (commit_offset g t p o m n) =
    IsString g × IsString t × IsU32 p × IsU64 o × IsString m × IsU64 n
IsRequest (fetch_offset g t p) = IsString g × IsString t × IsU32 p
IsRequest (join_group g m s ts) = IsString g × IsString m × IsU32 s × IsVec IsString ts
IsRequest (heartbeat g m n) = IsString g × IsString m × IsU64 n
IsRequest (leave_group g m) = IsString g × IsString m
