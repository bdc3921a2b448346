-- ===== src/Proto/Tests.antt =====
-- Runs of the codec on concrete messages, and its theorems at them.
use replog.Prelude.{
  ℕ, ◌≡◌, refl, List, [], ◌∷◌, ◌++◌, drop, take, length, arith, ltb, le→ltb_false,
  take-append_exact, drop-append_exact, length-append, if◌then◌else◌, lt→ltb, ◌<◌,
}
use replog.Proto.Result.{
  ProtoError, ok, err, bad_version, unknown_msg_type, malformed, trailing_bytes,
}
use replog.Proto.Utf8.{is_utf8}
use replog.Proto.Codes.{ErrorCode, error_as_u16}
use replog.Proto.Request.{Request}
use replog.Proto.Request.Ranges.{IsRequest}
use replog.Proto.Response.Ranges.{IsResponse}
use replog.Proto.Response.{Response}
use replog.Proto.Request.Body.{put_request, request_type, read_request}
use replog.Proto.Response.Body.{put_response, response_type}
use replog.Proto.Wire.{
  fields, take as wire_take, put_u8, put_u16, put_u32, put_u64, put_str, u8, u32,
}
use replog.Proto.Wire.Monad.{◌>>=◌}
use replog.Proto.Wire.Bytes.{le_bytes, from_le_bytes}
use replog.Proto.Frame.{
  encode_request, encode_response, decode_request, decode_response, finish_frame, frame_header,
  request_reader, read_header, check_version, run,
}
use replog.Proto.Frame.RoundTrip.{decode_request-encode_request, decode_response-encode_response}
use replog.Proto.Frame.Cut.{decode_request-longer, decode_request-cut, decode_response-cut}
use replog.Proto.Stream.{Exact, got, eof, frame, read_frame}
use replog.Proto.Stream.Laws.{Source, read_frame-encode_request}

abbrev commit : Request
commit = Request.commit_offset (0x67 ∷ []) (0x74 ∷ []) 1 99 [] 0

abbrev commit_bytes : List ℕ
commit_bytes =
    34 ∷ 0 ∷ 0 ∷ 0 ∷ 1 ∷ 5 ∷ 42 ∷ 0 ∷ 0 ∷ 0 ∷ 1 ∷ 0 ∷ 103 ∷ 1 ∷ 0 ∷ 116 ∷ 1 ∷ 0 ∷ 0 ∷ 0 ∷ 99 ∷ 0 ∷ 0
    ∷ 0 ∷ 0 ∷ 0 ∷ 0 ∷ 0 ∷ 0 ∷ 0 ∷ 0 ∷ 0 ∷ 0 ∷ 0 ∷ 0 ∷ 0 ∷ 0 ∷ 0 ∷ []

commit_encodes : encode_request commit 42 ≡ commit_bytes
unfolding encode_request finish_frame frame_header request_type put_request fields put_u8 put_u16
    put_u32 put_u64 put_str le_bytes
commit_encodes = refl

-- The test `garbage_headers_rejected`.
rejects_version : decode_request (9 ∷ 1 ∷ 0 ∷ 0 ∷ 0 ∷ 0 ∷ []) ≡ err (bad_version 9)
unfolding decode_request request_reader run read_header check_version u8 wire_take from_le_bytes
    ◌>>=◌
rejects_version = refl

rejects_type : decode_request (1 ∷ 0x7f ∷ 0 ∷ 0 ∷ 0 ∷ 0 ∷ []) ≡ err (unknown_msg_type 0x7f)
unfolding decode_request request_reader run read_header check_version u8 u32 wire_take from_le_bytes
    read_request ◌>>=◌
rejects_type = refl

commit-IsRequest : IsRequest commit
unfolding is_utf8
commit-IsRequest = (
  record { fits = omega arith; utf8 = refl },
  record { fits = omega arith; utf8 = refl },
  omega arith,
  omega arith,
  record { fits = omega arith; utf8 = refl },
  omega arith,
)

slots : Response
slots = Response.join_group ErrorCode.none (0x6d ∷ []) 9 ((0x74 ∷ [], 3) ∷ [])

slots-IsResponse : IsResponse slots
unfolding slots is_utf8
slots-IsResponse = (
  record { fits = omega arith; utf8 = refl },
  omega arith,
  record {
    fits = omega arith;
    each = (
      record { topic = record { fits = omega arith; utf8 = refl }; partition = omega arith },
      tt,
    );
  },
)

decode_request-encode_request_example :
    decode_request (drop 4 (encode_request commit 42)) ≡ ok (42, commit)
decode_request-encode_request_example =
    decode_request-encode_request commit 42 commit-IsRequest (omega arith)

decode_response-encode_response_example :
    decode_response (drop 4 (encode_response slots 7)) ≡ ok (7, slots)
decode_response-encode_response_example =
    decode_response-encode_response slots 7 slots-IsResponse (omega arith)

decode_request-longer_example :
    decode_request (drop 4 (encode_request commit 42) ++ 0xee ∷ [])
    ≡ err (malformed (trailing_bytes 1))
decode_request-longer_example =
    decode_request-longer (drop 4 (encode_request commit 42)) 42 commit 0xee []
      decode_request-encode_request_example

-- `Metadata` is one header of six bytes; here it lacks the last.
metadata_body : drop 4 (encode_request Request.metadata 3) ≡ (1 ∷ 2 ∷ 3 ∷ 0 ∷ 0 ∷ []) ++ 0 ∷ []
unfolding encode_request finish_frame frame_header request_type put_request fields put_u8 put_u32
    le_bytes
metadata_body = refl

decode_request-cut_example : (e : ProtoError) × (decode_request (1 ∷ 2 ∷ 3 ∷ 0 ∷ 0 ∷ []) ≡ err e)
decode_request-cut_example =
    decode_request-cut Request.metadata 3 (1 ∷ 2 ∷ 3 ∷ 0 ∷ 0 ∷ []) 0 [] tt (omega arith)
      metadata_body

heartbeat_body :
    drop 4 (encode_response (Response.heartbeat ErrorCode.stale_generation) 3)
    ≡ (1 ∷ 0x88 ∷ 3 ∷ 0 ∷ 0 ∷ 0 ∷ 7 ∷ []) ++ 0 ∷ []
unfolding encode_response finish_frame frame_header response_type put_response fields put_u8 put_u16
    put_u32 le_bytes error_as_u16
heartbeat_body = refl

decode_response-cut_example :
    (e : ProtoError) × (decode_response (1 ∷ 0x88 ∷ 3 ∷ 0 ∷ 0 ∷ 0 ∷ 7 ∷ []) ≡ err e)
decode_response-cut_example =
    decode_response-cut (Response.heartbeat ErrorCode.stale_generation) 3
      (1 ∷ 0x88 ∷ 3 ∷ 0 ∷ 0 ∷ 0 ∷ 7 ∷ []) 0 [] tt (omega arith) heartbeat_body

-- A source that is a list of bytes.
read_list : ℕ → List ℕ → Exact (List ℕ)
read_list n s = if ltb (length s) n then eof else got (take n s) (drop n s)

read_list-exact :
    (s xs ys : List ℕ)
    → s ≡ xs ++ ys
    → (s' : List ℕ) × (read_list (length xs) s ≡ got xs s') × (s' ≡ ys)
unfolding read_list
read_list-exact s xs ys e = (
  ys,
  rw e (
      rw (
        le→ltb_false (length (xs ++ ys)) (length xs) (rw length-append (omega arith)),
        take-append_exact,
        drop-append_exact,
      )),
  refl,
)

read_list-short : (s xs : List ℕ) (n : ℕ) → s ≡ xs → length xs < n → read_list n s ≡ eof
unfolding read_list
read_list-short s xs n e h = rw e (rw (lt→ltb (length xs) n h))

abbrev bytes_source : Source
bytes_source = record {
  S = List ℕ;
  read_exact = read_list;
  Holds = λ s xs. s ≡ xs;
  exact = read_list-exact;
  short = read_list-short;
}

read_frame-encode_request_example :
    (s' : List ℕ) × (f : List ℕ) × (read_frame read_list (encode_request commit 42 ++ 1 ∷ 2 ∷ [])
      ≡ frame f s')
    × (decode_request f ≡ ok (42, commit))
    × (s' ≡ 1 ∷ 2 ∷ [])
read_frame-encode_request_example =
    read_frame-encode_request bytes_source (encode_request commit 42 ++ 1 ∷ 2 ∷ []) commit 42
      (1 ∷ 2 ∷ []) commit-IsRequest (omega arith) (rw commit_encodes (omega arith)) refl
