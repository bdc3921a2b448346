-- ===== src/Proto/Frame.antt =====
-- Frames of src/proto/mod.rs: the length field and the header around a body, `encode_request`,
-- `encode_response`, `decode_request` and `decode_response`. A decoder gets the bytes behind the
-- length field.
pub mod RoundTrip
pub mod Cut
use replog.Prelude.{ℕ, ◌+◌, ◌-◌, List, [], ◌∷◌, ◌++◌, length, drop, not, ◌==◌, if◌then◌else◌}
use replog.Proto.Result.{Result, ok, err, bad_version}
use replog.Proto.Wire.{as_u32, fields, put_u8, put_u32, u8, u32, expect_end}
use replog.Proto.Wire.Monad.{Reader, pure, raise, ◌>>=◌, ◌>>◌}
use replog.Proto.Request.{Request}
use replog.Proto.Request.Body.{request_type, put_request, read_request}
use replog.Proto.Response.{Response}
use replog.Proto.Response.Body.{response_type, put_response, read_response}

abbrev pub version : ℕ
version = 1

unfoldable pub frame_header : ℕ → ℕ → List ℕ
frame_header msg_type correlation_id =
    0 ∷ 0 ∷ 0 ∷ 0 ∷ fields (put_u8 version ∷ put_u8 msg_type ∷ put_u32 correlation_id ∷ [])

-- `out[0..4]` is overwritten by the length of the rest.
unfoldable pub finish_frame : List ℕ → List ℕ
finish_frame out = put_u32 (as_u32 (length out - 4)) ++ drop 4 out

unfoldable pub encode_request : Request → ℕ → List ℕ
encode_request req correlation_id =
    finish_frame (frame_header (request_type req) correlation_id ++ put_request req)

unfoldable pub encode_response : Response → ℕ → List ℕ
encode_response resp correlation_id =
    finish_frame (frame_header (response_type resp) correlation_id ++ put_response resp)

unfoldable pub check_version : ℕ → Reader (Unit {0})
check_version v = if v == version then pure tt else raise (bad_version v)

unfoldable pub read_header : Reader (ℕ × ℕ)
read_header = do
  v ← u8
  check_version v
  msg_type ← u8
  correlation_id ← u32
  pure (msg_type, correlation_id)

-- A decoder runs its reader on the whole frame and keeps the value.
abbrev pub value : {A : Type 0} → Result (A × List ℕ) → Result A
value (ok (a, rest)) = ok a
value (err e) = err e

unfoldable pub run : {A : Type 0} → Reader A → List ℕ → Result A
run read frame = value (read frame)

unfoldable pub request_reader : Reader (ℕ × Request)
request_reader = do
  header ← read_header
  req ← read_request header.0
  expect_end
  pure (header.1, req)

unfoldable pub decode_request : List ℕ → Result (ℕ × Request)
decode_request = run request_reader

unfoldable pub response_reader : Reader (ℕ × Response)
response_reader = do
  header ← read_header
  resp ← read_response header.0
  expect_end
  pure (header.1, resp)

unfoldable pub decode_response : List ℕ → Result (ℕ × Response)
decode_response = run response_reader
