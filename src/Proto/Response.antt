-- ===== src/Proto/Response.antt =====
-- `Response` of src/proto/mod.rs: the body of each message as `encode_response` writes it, and the
-- reader of each message type as `decode_response` has it.
pub mod Body
pub mod Ranges
pub mod RoundTrip
use replog.Prelude.{ℕ, List}
use replog.Prelude.Int.{ℤ}
use replog.Proto.Codes.{ErrorCode}
use replog.Proto.Records.{FetchedRecord}
use replog.Proto.Meta.{ClusterMeta}

pub data Response : Type 0 where
  create_topic : ErrorCode → Response
  -- error, cluster
  metadata : ErrorCode → ClusterMeta → Response
  -- error, base_offset, count
  produce : ErrorCode → ℕ → ℕ → Response
  -- error, log_start, next_offset, records
  fetch : ErrorCode → ℕ → ℕ → List FetchedRecord → Response
  -- error, leader_epoch, log_end, high_watermark, records
  replica_fetch : ErrorCode → ℕ → ℕ → ℕ → List FetchedRecord → Response
  -- error, end_offset
  epoch_check : ErrorCode → ℕ → Response
  -- error, metadata_version
  register_broker broker_heartbeat alter_isr : ErrorCode → ℕ → Response
  -- error, cluster
  controller_metadata : ErrorCode → ClusterMeta → Response
  commit_offset : ErrorCode → Response
  -- error, offset or -1
  fetch_offset : ErrorCode → ℤ → Response
  -- error, member_id, generation, assignment
  join_group : ErrorCode → List ℕ → ℕ → List (List ℕ × ℕ) → Response
  heartbeat leave_group : ErrorCode → Response
