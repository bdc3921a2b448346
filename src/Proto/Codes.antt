-- ===== src/Proto/Codes.antt =====
-- `ErrorCode` and `Acks` of src/proto/mod.rs, with their numbers on the wire.
pub mod RoundTrip
use replog.Prelude.{ℕ, Bool, true, false, ◌==◌, if◌then◌else◌}
use replog.Proto.Result.{malformed, unknown_error_code, unknown_acks}
use replog.Proto.Wire.{u8, u16}
use replog.Proto.Wire.Monad.{Reader, pure, raise, ◌>>=◌}

pub data ErrorCode : Type 0 where
  none unknown_topic_or_partition offset_out_of_range storage malformed_request topic_exists :
      ErrorCode
  unknown_member stale_generation not_leader fenced_epoch not_enough_replicas offline : ErrorCode

-- Whether an error is `ErrorCode::None`.
abbrev pub is_none : ErrorCode → Bool
is_none ErrorCode.none = true
is_none _ = false

-- `*error as u16`
unfoldable pub error_as_u16 : ErrorCode → ℕ
error_as_u16 ErrorCode.none = 0
error_as_u16 ErrorCode.unknown_topic_or_partition = 1
error_as_u16 ErrorCode.offset_out_of_range = 2
error_as_u16 ErrorCode.storage = 3
error_as_u16 ErrorCode.malformed_request = 4
error_as_u16 ErrorCode.topic_exists = 5
error_as_u16 ErrorCode.unknown_member = 6
error_as_u16 ErrorCode.stale_generation = 7
error_as_u16 ErrorCode.not_leader = 8
error_as_u16 ErrorCode.fenced_epoch = 9
error_as_u16 ErrorCode.not_enough_replicas = 10
error_as_u16 ErrorCode.offline = 11

unfoldable pub error_from_u16 : ℕ → Reader ErrorCode
error_from_u16 v =
    if v == 0
    then pure ErrorCode.none
    else if v == 1
    then pure ErrorCode.unknown_topic_or_partition
    else if v == 2
    then pure ErrorCode.offset_out_of_range
    else if v == 3
    then pure ErrorCode.storage
    else if v == 4
    then pure ErrorCode.malformed_request
    else if v == 5
    then pure ErrorCode.topic_exists
    else if v == 6
    then pure ErrorCode.unknown_member
    else if v == 7
    then pure ErrorCode.stale_generation
    else if v == 8
    then pure ErrorCode.not_leader
    else if v == 9
    then pure ErrorCode.fenced_epoch
    else if v == 10
    then pure ErrorCode.not_enough_replicas
    else if v == 11
    then pure ErrorCode.offline
    else raise (malformed (unknown_error_code v))

-- `ErrorCode::from_u16(r.u16()?)?`
unfoldable pub read_error : Reader ErrorCode
read_error = do v ← u16; error_from_u16 v

pub data Acks : Type 0 where
  none written durable all : Acks

-- `*acks as u8`
unfoldable pub acks_as_u8 : Acks → ℕ
acks_as_u8 Acks.none = 0
acks_as_u8 Acks.written = 1
acks_as_u8 Acks.durable = 2
acks_as_u8 Acks.all = 3

unfoldable pub acks_from_u8 : ℕ → Reader Acks
acks_from_u8 v =
    if v == 0
    then pure Acks.none
    else if v == 1
    then pure Acks.written
    else if v == 2
    then pure Acks.durable
    else if v == 3
    then pure Acks.all
    else raise (malformed (unknown_acks v))

-- `Acks::from_u8(r.u8()?)?`
unfoldable pub read_acks : Reader Acks
read_acks = do v ← u8; acks_from_u8 v
