-- ===== src/Proto/Frame/Cut.antt =====
-- Frames that are cut short or continued.
use replog.Prelude.{◌⊎◌, inl, inr, ℕ, ◌≡◌, refl, List, [], ◌∷◌, ◌++◌, arith, length, drop}
use replog.Proto.Result.{ProtoError, Result, ok, err, malformed, trailing_bytes}
use replog.Proto.Wire.{expect_end}
use replog.Proto.Wire.Monad.{Reader, pure, ◌>>=◌}
use replog.Proto.Wire.Prefix.{Extends, prefix_rules}
use replog.Proto.Wire.Primitives.{IsU32}
use replog.Proto.Prefix.{Extends-request, Extends-response}
use replog.Proto.Request.{Request}
use replog.Proto.Request.Ranges.{IsRequest}
use replog.Proto.Request.Body.{read_request}
use replog.Proto.Response.{Response}
use replog.Proto.Response.Ranges.{IsResponse}
use replog.Proto.Response.Body.{read_response}
use replog.Proto.Frame.{
  check_version, read_header, value, run, request_reader, decode_request, response_reader,
  decode_response, encode_request, encode_response,
}
use replog.Proto.Frame.RoundTrip.{
  framed, decode_request-encode_request, decode_response-encode_response,
}

Extends-check_version : (v : ℕ) → Extends (check_version v)
unfolding check_version
Extends-check_version v = search prefix_rules

Extends-header : Extends read_header
unfolding read_header
Extends-header = search (prefix_rules, Extends-check_version) depth 8

module _ {A : Type 0} (reader : ℕ → Reader A) (extends : (t : ℕ) → Extends (reader t)) where
  -- the part of a decoder before `expect_end`
  unended : Reader (ℕ × A)
  unended = do header ← read_header; a ← reader header.0; pure (header.1, a)

  Extends-unended : Extends unended
  unfolding unended
  Extends-unended = search (prefix_rules, Extends-header, extends)

  -- A frame that is accepted is read whole.
  framed-eq_ok :
      (s : List ℕ) (x : ℕ × A) (rest : List ℕ)
      → framed reader s ≡ ok (x, rest)
      → unended s ≡ ok (x, [])
  unfolding unended expect_end ◌>>=◌
  framed-eq_ok s x rest h = ground arith

  -- What is left behind the message is refused.
  framed-trailing :
      (s : List ℕ) (x : ℕ × A) (b : ℕ) (more : List ℕ)
      → unended s ≡ ok (x, b ∷ more)
      → framed reader s ≡ err (malformed (trailing_bytes (length (b ∷ more))))
  unfolding unended expect_end ◌>>=◌
  framed-trailing s x b more h = ground arith

  -- More bytes behind an accepted frame are refused.
  framed-longer :
      (s : List ℕ) (b : ℕ) (more : List ℕ) (x : ℕ × A) (rest : List ℕ)
      → framed reader s ≡ ok (x, rest)
      → framed reader (s ++ b ∷ more) ≡ err (malformed (trailing_bytes (length (b ∷ more))))
  framed-longer s b more x rest h =
      framed-trailing (s ++ b ∷ more) x b more
        (Extends-unended.at s (b ∷ more) x [] (framed-eq_ok s x rest h))

value-eq_ok :
    {A : Type 0} (r : Result (A × List ℕ)) (a : A)
    → value r ≡ ok a
    → (rest : List ℕ) × (r ≡ ok (a, rest))
value-eq_ok (ok (x, rest)) a h = (rest, ground arith)
value-eq_ok (err e) a h = cc

-- How `run` reads its reader's result.
run-ok :
    {A : Type 0} (read : Reader A) (s : List ℕ) (a : A)
    → run read s ≡ ok a
    → (rest : List ℕ) × (read s ≡ ok (a, rest))
unfolding run
run-ok read s a h = value-eq_ok (read s) a h

run-err :
    {A : Type 0} (read : Reader A) (s : List ℕ) (e : ProtoError)
    → read s ≡ err e
    → run read s ≡ err e
unfolding run
run-err read s e h = rw (h, run)

Result-cases :
    {A : Type 0} (r : Result A) → ((a : A) × (r ≡ ok a)) ⊎ ((e : ProtoError) × (r ≡ err e))
Result-cases (ok a) = inl (a, refl)
Result-cases (err e) = inr (e, refl)

-- Bytes behind a request that `decode_request` accepts make it refuse the frame, and the error
-- counts them.
pub decode_request-longer :
    (frame : List ℕ) (corr : ℕ) (r : Request) (b : ℕ) (more : List ℕ)
    → decode_request frame ≡ ok (corr, r)
    → decode_request (frame ++ b ∷ more) ≡ err (malformed (trailing_bytes (length (b ∷ more))))
unfolding decode_request request_reader
decode_request-longer frame corr r b more h =
    let (rest, e) = run-ok request_reader frame (corr, r) h in
    run-err request_reader (frame ++ b ∷ more) _
      (framed-longer read_request Extends-request frame b more (corr, r) rest e)

-- The same of responses.
pub decode_response-longer :
    (frame : List ℕ) (corr : ℕ) (r : Response) (b : ℕ) (more : List ℕ)
    → decode_response frame ≡ ok (corr, r)
    → decode_response (frame ++ b ∷ more) ≡ err (malformed (trailing_bytes (length (b ∷ more))))
unfolding decode_response response_reader
decode_response-longer frame corr r b more h =
    let (rest, e) = run-ok response_reader frame (corr, r) h in
    run-err response_reader (frame ++ b ∷ more) _
      (framed-longer read_response Extends-response frame b more (corr, r) rest e)

-- No proper prefix of an encoded request decodes: `front` is any part of the bytes behind the length
-- field that lacks at least the last one.
pub decode_request-cut :
    (r : Request) (corr : ℕ) (front : List ℕ) (b : ℕ) (back : List ℕ)
    → IsRequest r
    → IsU32 corr
    → drop 4 (encode_request r corr) ≡ front ++ b ∷ back
    → (e : ProtoError) × (decode_request front ≡ err e)
decode_request-cut r corr front b back h hc split = elim (Result-cases (decode_request front)) [
  | inr failed ↦ failed
  | inl ((c, q), accepted) ↦ absurd (
      cc (
        decode_request-encode_request r corr h hc,
        split,
        decode_request-longer front c q b back accepted,
      ))
]

-- No proper prefix of an encoded response decodes.
pub decode_response-cut :
    (r : Response) (corr : ℕ) (front : List ℕ) (b : ℕ) (back : List ℕ)
    → IsResponse r
    → IsU32 corr
    → drop 4 (encode_response r corr) ≡ front ++ b ∷ back
    → (e : ProtoError) × (decode_response front ≡ err e)
decode_response-cut r corr front b back h hc split = elim (Result-cases (decode_response front)) [
  | inr failed ↦ failed
  | inl ((c, q), accepted) ↦ absurd (
      cc (
        decode_response-encode_response r corr h hc,
        split,
        decode_response-longer front c q b back accepted,
      ))
]
