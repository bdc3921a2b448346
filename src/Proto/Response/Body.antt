-- ===== src/Proto/Response/Body.antt =====
-- The message types and bodies of `encode_response`, and the match of `decode_response`.
use replog.Prelude.{ℕ, List, [], ◌∷◌, length, ◌==◌, if◌then◌else◌}
use replog.Proto.Result.{unknown_msg_type}
use replog.Proto.Wire.{
  fields, as_u32, put_u16, put_u32, put_u64, put_i64, put_str, put_each, u32, u64, i64, string,
  read_each,
}
use replog.Proto.Wire.Monad.{Reader, pure, raise, ◌>>=◌}
use replog.Proto.Codes.{error_as_u16, read_error}
use replog.Proto.Records.{put_fetched_record, read_fetched_record}
use replog.Proto.Meta.{put_cluster_meta, read_cluster_meta}
use replog.Proto.Response.{
  Response, create_topic, metadata, produce, fetch, replica_fetch, epoch_check, register_broker,
  broker_heartbeat, alter_isr, controller_metadata, commit_offset, fetch_offset, join_group,
  heartbeat, leave_group,
}

-- The request's type with RESPONSE_BIT, 0x80, set.
unfoldable pub response_type : Response → ℕ
response_type (create_topic _) = 0x81
response_type (metadata _ _) = 0x82
response_type (produce _ _ _) = 0x83
response_type (fetch _ _ _ _) = 0x84
response_type (commit_offset _) = 0x85
response_type (fetch_offset _ _) = 0x86
response_type (join_group _ _ _ _) = 0x87
response_type (heartbeat _) = 0x88
response_type (leave_group _) = 0x89
response_type (replica_fetch _ _ _ _ _) = 0x8a
response_type (epoch_check _ _) = 0x8b
response_type (register_broker _ _) = 0x8c
response_type (broker_heartbeat _ _) = 0x8d
response_type (alter_isr _ _) = 0x8e
response_type (controller_metadata _ _) = 0x8f

unfoldable pub put_slot : List ℕ × ℕ → List ℕ
put_slot s = fields (put_str s.0 ∷ put_u32 s.1 ∷ [])

unfoldable pub put_response : Response → List ℕ
put_response (create_topic error) = fields (put_u16 (error_as_u16 error) ∷ [])
put_response (metadata error cluster) =
    fields (put_u16 (error_as_u16 error) ∷ put_cluster_meta cluster ∷ [])
put_response (replica_fetch error leader_epoch log_end high_watermark records) = fields (
    put_u16 (error_as_u16 error)
    ∷ put_u64 leader_epoch
    ∷ put_u64 log_end
    ∷ put_u64 high_watermark
    ∷ put_u32 (as_u32 (length records))
    ∷ put_each put_fetched_record records
    ∷ [])
put_response (epoch_check error end_offset) =
    fields (put_u16 (error_as_u16 error) ∷ put_u64 end_offset ∷ [])
put_response (register_broker error metadata_version) =
    fields (put_u16 (error_as_u16 error) ∷ put_u64 metadata_version ∷ [])
put_response (broker_heartbeat error metadata_version) =
    fields (put_u16 (error_as_u16 error) ∷ put_u64 metadata_version ∷ [])
put_response (alter_isr error metadata_version) =
    fields (put_u16 (error_as_u16 error) ∷ put_u64 metadata_version ∷ [])
put_response (controller_metadata error cluster) =
    fields (put_u16 (error_as_u16 error) ∷ put_cluster_meta cluster ∷ [])
put_response (produce error base_offset count) =
    fields (put_u16 (error_as_u16 error) ∷ put_u64 base_offset ∷ put_u32 count ∷ [])
put_response (fetch error log_start next_offset records) = fields (
    put_u16 (error_as_u16 error)
    ∷ put_u64 log_start
    ∷ put_u64 next_offset
    ∷ put_u32 (as_u32 (length records))
    ∷ put_each put_fetched_record records
    ∷ [])
put_response (commit_offset error) = fields (put_u16 (error_as_u16 error) ∷ [])
put_response (fetch_offset error offset) =
    fields (put_u16 (error_as_u16 error) ∷ put_i64 offset ∷ [])
put_response (join_group error member_id generation assignment) = fields (
    put_u16 (error_as_u16 error)
    ∷ put_str member_id
    ∷ put_u64 generation
    ∷ put_u32 (as_u32 (length assignment))
    ∷ put_each put_slot assignment
    ∷ [])
put_response (heartbeat error) = fields (put_u16 (error_as_u16 error) ∷ [])
put_response (leave_group error) = fields (put_u16 (error_as_u16 error) ∷ [])

unfoldable pub read_create_topic : Reader Response
read_create_topic = do error ← read_error; pure (create_topic error)

unfoldable pub read_metadata : Reader Response
read_metadata = do error ← read_error; cluster ← read_cluster_meta; pure (metadata error cluster)

unfoldable pub read_replica_fetch : Reader Response
read_replica_fetch = do
  error ← read_error
  leader_epoch ← u64
  log_end ← u64
  high_watermark ← u64
  count ← u32
  records ← read_each count read_fetched_record
  pure (replica_fetch error leader_epoch log_end high_watermark records)

unfoldable pub read_epoch_check : Reader Response
read_epoch_check = do error ← read_error; end_offset ← u64; pure (epoch_check error end_offset)

unfoldable pub read_register_broker : Reader Response
read_register_broker = do
  error ← read_error
  metadata_version ← u64
  pure (register_broker error metadata_version)

unfoldable pub read_broker_heartbeat : Reader Response
read_broker_heartbeat = do
  error ← read_error
  metadata_version ← u64
  pure (broker_heartbeat error metadata_version)

unfoldable pub read_alter_isr : Reader Response
read_alter_isr = do
  error ← read_error
  metadata_version ← u64
  pure (alter_isr error metadata_version)

unfoldable pub read_controller_metadata : Reader Response
read_controller_metadata = do
  error ← read_error
  cluster ← read_cluster_meta
  pure (controller_metadata error cluster)

unfoldable pub read_produce : Reader Response
read_produce = do
  error ← read_error
  base_offset ← u64
  count ← u32
  pure (produce error base_offset count)

unfoldable pub read_fetch : Reader Response
read_fetch = do
  error ← read_error
  log_start ← u64
  next_offset ← u64
  count ← u32
  records ← read_each count read_fetched_record
  pure (fetch error log_start next_offset records)

unfoldable pub read_commit_offset : Reader Response
read_commit_offset = do error ← read_error; pure (commit_offset error)

unfoldable pub read_fetch_offset : Reader Response
read_fetch_offset = do error ← read_error; offset ← i64; pure (fetch_offset error offset)

unfoldable pub read_slot : Reader (List ℕ × ℕ)
read_slot = do topic ← string; partition ← u32; pure (topic, partition)

unfoldable pub read_join_group : Reader Response
read_join_group = do
  error ← read_error
  member_id ← string
  generation ← u64
  count ← u32
  assignment ← read_each count read_slot
  pure (join_group error member_id generation assignment)

unfoldable pub read_heartbeat : Reader Response
read_heartbeat = do error ← read_error; pure (heartbeat error)

unfoldable pub read_leave_group : Reader Response
read_leave_group = do error ← read_error; pure (leave_group error)

unfoldable pub read_response : ℕ → Reader Response
read_response t =
    if t == 0x81
    then read_create_topic
    else if t == 0x82
    then read_metadata
    else if t == 0x8a
    then read_replica_fetch
    else if t == 0x8b
    then read_epoch_check
    else if t == 0x8c
    then read_register_broker
    else if t == 0x8d
    then read_broker_heartbeat
    else if t == 0x8e
    then read_alter_isr
    else if t == 0x8f
    then read_controller_metadata
    else if t == 0x83
    then read_produce
    else if t == 0x84
    then read_fetch
    else if t == 0x85
    then read_commit_offset
    else if t == 0x86
    then read_fetch_offset
    else if t == 0x87
    then read_join_group
    else if t == 0x88
    then read_heartbeat
    else if t == 0x89
    then read_leave_group
    else raise (unknown_msg_type t)
