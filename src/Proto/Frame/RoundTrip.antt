-- ===== src/Proto/Frame/RoundTrip.antt =====
-- Frames are read back as they were written.
use replog.Prelude.{ℕ, ◌≡◌, refl, List, [], ◌∷◌, ◌++◌, append-nil, drop}
use replog.Proto.Result.{ok}
use replog.Proto.Wire.{fields, put_u8, put_u32, u8, u32, expect_end}
use replog.Proto.Wire.Monad.{Reader, pure, ◌>>=◌}
use replog.Proto.Wire.Bytes.{le_bytes}
use replog.Proto.Wire.Reads.{Reads, Reads-pure, Reads-bind, Reads-skip}
use replog.Proto.Wire.Primitives.{IsU32, Reads-u8, Reads-u32}
use replog.Proto.Request.{Request}
use replog.Proto.Request.Ranges.{IsRequest}
use replog.Proto.Request.Body.{request_type, put_request, read_request}
use replog.Proto.Request.RoundTrip.{Reads-request}
use replog.Proto.Response.{Response}
use replog.Proto.Response.Ranges.{IsResponse}
use replog.Proto.Response.Body.{response_type, put_response, read_response}
use replog.Proto.Response.RoundTrip.{Reads-response}
use replog.Proto.Frame.{
  version, frame_header, finish_frame, encode_request, encode_response, check_version, read_header,
  run, request_reader, decode_request, response_reader, decode_response,
}

-- The bytes behind the length field.
abbrev pub frame_body : ℕ → ℕ → List ℕ → List ℕ
frame_body t corr body = fields (put_u8 version ∷ put_u8 t ∷ put_u32 corr ∷ []) ++ body

Reads-header :
    (t corr : ℕ)
    → IsU32 corr
    → Reads read_header (fields (put_u8 version ∷ put_u8 t ∷ put_u32 corr ∷ [])) (t, corr)
unfolding read_header check_version
Reads-header t corr h = Reads-bind u8 _ _ _ version _ (Reads-u8 version) (
    Reads-skip tt _ _ _ (
      Reads-bind u8 _ _ _ t _ (Reads-u8 t)
        (Reads-bind u32 _ _ _ corr _ (Reads-u32 corr h) (Reads-pure (t, corr)))))

module _ {A : Type 0} (reader : ℕ → Reader A) where
  -- The common shape of the two decoders.
  abbrev pub framed : Reader (ℕ × A)
  framed = do header ← read_header; a ← reader header.0; _ ← expect_end; pure (header.1, a)

  framed-body :
      (t corr : ℕ) (body : List ℕ) (a : A)
      → IsU32 corr
      → Reads (reader t) body a
      → framed (frame_body t corr body) ≡ ok ((corr, a), [])
  unfolding ◌>>=◌ expect_end
  framed-body t corr body a hc h =
      rw ((Reads-header t corr hc).at body) (rw (rw append-nil at (h.at [])))

run-eq_ok :
    {A : Type 0} (read : Reader A) (s : List ℕ) (a : A) (rest : List ℕ)
    → read s ≡ ok (a, rest)
    → run read s ≡ ok a
unfolding run
run-eq_ok read s a rest h = rw (h, run)

drop-put_u32 : (n : ℕ) (xs : List ℕ) → drop 4 (put_u32 n ++ xs) ≡ xs
unfolding put_u32 le_bytes
drop-put_u32 n xs = refl

pub drop-finish_frame : (out : List ℕ) → drop 4 (finish_frame out) ≡ drop 4 out
unfolding finish_frame
drop-finish_frame out = drop-put_u32 _ _

encode_request-body :
    (r : Request) (corr : ℕ)
    → drop 4 (encode_request r corr) ≡ frame_body (request_type r) corr (put_request r)
unfolding encode_request finish_frame frame_header
encode_request-body r corr = drop-put_u32 _ _

encode_response-body :
    (r : Response) (corr : ℕ)
    → drop 4 (encode_response r corr) ≡ frame_body (response_type r) corr (put_response r)
unfolding encode_response finish_frame frame_header
encode_response-body r corr = drop-put_u32 _ _

-- A request whose fields fit the wire's field widths comes back from `decode_request` on the bytes
-- behind the length field that `encode_request` wrote, with its correlation id.
pub decode_request-encode_request :
    (r : Request) (corr : ℕ)
    → IsRequest r
    → IsU32 corr
    → decode_request (drop 4 (encode_request r corr)) ≡ ok (corr, r)
unfolding decode_request request_reader
decode_request-encode_request r corr h hc = rw encode_request-body (
    run-eq_ok request_reader _ _ _
      (framed-body read_request (request_type r) corr (put_request r) r hc (Reads-request r h)))

-- A response whose fields fit the wire's field widths comes back from `decode_response` on the bytes
-- behind the length field that `encode_response` wrote, with its correlation id.
pub decode_response-encode_response :
    (r : Response) (corr : ℕ)
    → IsResponse r
    → IsU32 corr
    → decode_response (drop 4 (encode_response r corr)) ≡ ok (corr, r)
unfolding decode_response response_reader
decode_response-encode_response r corr h hc = rw encode_response-body (
    run-eq_ok response_reader _ _ _
      (framed-body read_response (response_type r) corr (put_response r) r hc (Reads-response r h)))
