-- ===== src/Proto/Request.antt =====
-- `Request` of src/proto/mod.rs: the body of each message as `encode_request` writes it, and the
-- reader of each message type as `decode_request` has it.
pub mod Body
pub mod Ranges
pub mod RoundTrip
use replog.Prelude.{ℕ, List}
use replog.Proto.Codes.{Acks}
use replog.Proto.Records.{ProduceRecord}

pub data Request : Type 0 where
  -- topic, partitions, replication_factor
  create_topic : List ℕ → ℕ → ℕ → Request
  metadata : Request
  -- topic, partition, acks, leader_epoch, records
  produce : List ℕ → ℕ → Acks → ℕ → List ProduceRecord → Request
  -- topic, partition, offset, max_bytes, max_wait_ms
  fetch : List ℕ → ℕ → ℕ → ℕ → ℕ → Request
  -- topic, partition, follower_id, leader_epoch, offset, max_bytes, max_wait_ms
  replica_fetch : List ℕ → ℕ → ℕ → ℕ → ℕ → ℕ → ℕ → Request
  -- topic, partition, epoch
  epoch_check : List ℕ → ℕ → ℕ → Request
  -- broker_id, addr, peer_addr
  register_broker : ℕ → List ℕ → List ℕ → Request
  -- broker_id, metadata_version
  broker_heartbeat : ℕ → ℕ → Request
  -- topic, partition, leader_epoch, isr
  alter_isr : List ℕ → ℕ → ℕ → List ℕ → Request
  controller_metadata : Request
  -- group, topic, partition, offset, member_id, generation
  commit_offset : List ℕ → List ℕ → ℕ → ℕ → List ℕ → ℕ → Request
  -- group, topic, partition
  fetch_offset : List ℕ → List ℕ → ℕ → Request
  -- group, member_id, session_timeout_ms, topics
  join_group : List ℕ → List ℕ → ℕ → List (List ℕ) → Request
  -- group, member_id, generation
  heartbeat : List ℕ → List ℕ → ℕ → Request
  -- group, member_id
  leave_group : List ℕ → List ℕ → Request
