-- ===== src/Proto/Request/Body.antt =====
-- The message types and bodies of `encode_request`, and the match of `decode_request`.
use replog.Prelude.{ℕ, List, [], ◌∷◌, length, ◌==◌, if◌then◌else◌}
use replog.Proto.Result.{unknown_msg_type}
use replog.Proto.Wire.{
  fields, as_u32, put_u8, put_u32, put_u64, put_str, put_each, u32, u64, string, read_each,
}
use replog.Proto.Wire.Monad.{Reader, pure, raise, ◌>>=◌}
use replog.Proto.Codes.{acks_as_u8, read_acks}
use replog.Proto.Records.{put_produce_record, read_produce_record}
use replog.Proto.Request.{
  Request, create_topic, metadata, produce, fetch, replica_fetch, epoch_check, register_broker,
  broker_heartbeat, alter_isr, controller_metadata, commit_offset, fetch_offset, join_group,
  heartbeat, leave_group,
}

-- MSG_CREATE_TOPIC to MSG_CONTROLLER_METADATA
unfoldable pub request_type : Request → ℕ
request_type (create_topic _ _ _) = 1
request_type metadata = 2
request_type (produce _ _ _ _ _) = 3
request_type (fetch _ _ _ _ _) = 4
request_type (commit_offset _ _ _ _ _ _) = 5
request_type (fetch_offset _ _ _) = 6
request_type (join_group _ _ _ _) = 7
request_type (heartbeat _ _ _) = 8
request_type (leave_group _ _) = 9
request_type (replica_fetch _ _ _ _ _ _ _) = 10
request_type (epoch_check _ _ _) = 11
request_type (register_broker _ _ _) = 12
request_type (broker_heartbeat _ _) = 13
request_type (alter_isr _ _ _ _) = 14
request_type controller_metadata = 15

unfoldable pub put_request : Request → List ℕ
put_request (create_topic topic partitions replication_factor) =
    fields (put_str topic ∷ put_u32 partitions ∷ put_u32 replication_factor ∷ [])
put_request metadata = fields []
put_request (produce topic partition acks leader_epoch records) = fields (
    put_str topic
    ∷ put_u32 partition
    ∷ put_u8 (acks_as_u8 acks)
    ∷ put_u64 leader_epoch
    ∷ put_u32 (as_u32 (length records))
    ∷ put_each put_produce_record records
    ∷ [])
put_request (replica_fetch topic partition follower_id leader_epoch offset max_bytes max_wait_ms) =
    fields (
      put_str topic
      ∷ put_u32 partition
      ∷ put_u32 follower_id
      ∷ put_u64 leader_epoch
      ∷ put_u64 offset
      ∷ put_u32 max_bytes
      ∷ put_u32 max_wait_ms
      ∷ [])
put_request (epoch_check topic partition epoch) =
    fields (put_str topic ∷ put_u32 partition ∷ put_u64 epoch ∷ [])
put_request (register_broker broker_id addr peer_addr) =
    fields (put_u32 broker_id ∷ put_str addr ∷ put_str peer_addr ∷ [])
put_request (broker_heartbeat broker_id metadata_version) =
    fields (put_u32 broker_id ∷ put_u64 metadata_version ∷ [])
put_request (alter_isr topic partition leader_epoch isr) = fields (
    put_str topic
    ∷ put_u32 partition
    ∷ put_u64 leader_epoch
    ∷ put_u32 (as_u32 (length isr))
    ∷ put_each put_u32 isr
    ∷ [])
put_request controller_metadata = fields []
put_request (fetch topic partition offset max_bytes max_wait_ms) = fields (
    put_str topic
    ∷ put_u32 partition
    ∷ put_u64 offset
    ∷ put_u32 max_bytes
    ∷ put_u32 max_wait_ms
    ∷ [])
put_request (commit_offset group topic partition offset member_id generation) = fields (
    put_str group
    ∷ put_str topic
    ∷ put_u32 partition
    ∷ put_u64 offset
    ∷ put_str member_id
    ∷ put_u64 generation
    ∷ [])
put_request (fetch_offset group topic partition) =
    fields (put_str group ∷ put_str topic ∷ put_u32 partition ∷ [])
put_request (join_group group member_id session_timeout_ms topics) = fields (
    put_str group
    ∷ put_str member_id
    ∷ put_u32 session_timeout_ms
    ∷ put_u32 (as_u32 (length topics))
    ∷ put_each put_str topics
    ∷ [])
put_request (heartbeat group member_id generation) =
    fields (put_str group ∷ put_str member_id ∷ put_u64 generation ∷ [])
put_request (leave_group group member_id) = fields (put_str group ∷ put_str member_id ∷ [])

unfoldable pub read_create_topic : Reader Request
read_create_topic = do
  topic ← string
  partitions ← u32
  replication_factor ← u32
  pure (create_topic topic partitions replication_factor)

unfoldable pub read_produce : Reader Request
read_produce = do
  topic ← string
  partition ← u32
  acks ← read_acks
  leader_epoch ← u64
  count ← u32
  records ← read_each count read_produce_record
  pure (produce topic partition acks leader_epoch records)

unfoldable pub read_replica_fetch : Reader Request
read_replica_fetch = do
  topic ← string
  partition ← u32
  follower_id ← u32
  leader_epoch ← u64
  offset ← u64
  max_bytes ← u32
  max_wait_ms ← u32
  pure (replica_fetch topic partition follower_id leader_epoch offset max_bytes max_wait_ms)

unfoldable pub read_epoch_check : Reader Request
read_epoch_check = do
  topic ← string
  partition ← u32
  epoch ← u64
  pure (epoch_check topic partition epoch)

unfoldable pub read_register_broker : Reader Request
read_register_broker = do
  broker_id ← u32
  addr ← string
  peer_addr ← string
  pure (register_broker broker_id addr peer_addr)

unfoldable pub read_broker_heartbeat : Reader Request
read_broker_heartbeat = do
  broker_id ← u32
  metadata_version ← u64
  pure (broker_heartbeat broker_id metadata_version)

unfoldable pub read_alter_isr : Reader Request
read_alter_isr = do
  topic ← string
  partition ← u32
  leader_epoch ← u64
  count ← u32
  isr ← read_each count u32
  pure (alter_isr topic partition leader_epoch isr)

unfoldable pub read_fetch : Reader Request
read_fetch = do
  topic ← string
  partition ← u32
  offset ← u64
  max_bytes ← u32
  max_wait_ms ← u32
  pure (fetch topic partition offset max_bytes max_wait_ms)

unfoldable pub read_commit_offset : Reader Request
read_commit_offset = do
  group ← string
  topic ← string
  partition ← u32
  offset ← u64
  member_id ← string
  generation ← u64
  pure (commit_offset group topic partition offset member_id generation)

unfoldable pub read_fetch_offset : Reader Request
read_fetch_offset = do
  group ← string
  topic ← string
  partition ← u32
  pure (fetch_offset group topic partition)

unfoldable pub read_join_group : Reader Request
read_join_group = do
  group ← string
  member_id ← string
  session_timeout_ms ← u32
  count ← u32
  topics ← read_each count string
  pure (join_group group member_id session_timeout_ms topics)

unfoldable pub read_heartbeat : Reader Request
read_heartbeat = do
  group ← string
  member_id ← string
  generation ← u64
  pure (heartbeat group member_id generation)

unfoldable pub read_leave_group : Reader Request
read_leave_group = do group ← string; member_id ← string; pure (leave_group group member_id)

unfoldable pub read_request : ℕ → Reader Request
read_request t =
    if t == 1
    then read_create_topic
    else if t == 2
    then pure metadata
    else if t == 3
    then read_produce
    else if t == 10
    then read_replica_fetch
    else if t == 11
    then read_epoch_check
    else if t == 12
    then read_register_broker
    else if t == 13
    then read_broker_heartbeat
    else if t == 14
    then read_alter_isr
    else if t == 15
    then pure controller_metadata
    else if t == 4
    then read_fetch
    else if t == 5
    then read_commit_offset
    else if t == 6
    then read_fetch_offset
    else if t == 7
    then read_join_group
    else if t == 8
    then read_heartbeat
    else if t == 9
    then read_leave_group
    else raise (unknown_msg_type t)
