-- ===== src/Proto/Result.antt =====
-- `ProtoError` and `Result` of src/proto/mod.rs.
use replog.Prelude.{ℕ}

-- The text of a `Malformed` error, as data.
pub data Reason : Type 0 where
  invalid_utf8 : Reason
  trailing_bytes unknown_error_code unknown_acks : ℕ → Reason

pub data ProtoError : Type 0 where
  truncated : ProtoError
  malformed : Reason → ProtoError
  bad_version unknown_msg_type : ℕ → ProtoError

pub data Result {ℓ} (A : Type ℓ) : Type ℓ where
  ok : A → Result A
  err : ProtoError → Result A
