-- ===== src/Proto/Stream/Laws.antt =====
-- Frames that one side writes one after the other are read one after the other.
use native.Mathlib.Nat.{mod-eq_of_lt}
use replog.Prelude.{
  ℕ, ◌+◌, ◌<◌, ◌≤◌, ◌^◌, ◌≡◌, ap, List, [], ◌++◌, append_assoc, arith, length, length-drop, drop,
  length-append, ltb, ◌==◌, ◌||◌, false,
}
use replog.Proto.Result.{ok}
use replog.Proto.Wire.{as_u32, fields, put_u8, put_u32}
use replog.Proto.Wire.Bytes.{from_le_bytes, length-le_bytes, from_le_bytes-le_bytes}
use replog.Proto.Wire.Primitives.{IsU32}
use replog.Proto.Request.{Request}
use replog.Proto.Request.Ranges.{IsRequest}
use replog.Proto.Request.Body.{request_type, put_request}
use replog.Proto.Response.{Response}
use replog.Proto.Response.Ranges.{IsResponse}
use replog.Proto.Response.Body.{response_type, put_response}
use replog.Proto.Frame.{
  frame_header, finish_frame, encode_request, encode_response, decode_request, decode_response,
}
use replog.Proto.Frame.RoundTrip.{
  drop-finish_frame, decode_request-encode_request, decode_response-encode_response,
}
use replog.Proto.Stream.{Exact, got, eof, frame, closed, max_frame_bytes, read_body, read_frame}

-- The documented behaviour of `read_exact` on a source that holds given bytes and then ends.
pub record Source : Type 1 where
  pub S : Type 0
  pub read_exact : ℕ → S → Exact S
  pub Holds : S → List ℕ → Type 0
  pub exact :
      (s : S) (xs ys : List ℕ)
      → Holds s (xs ++ ys)
      → (s' : S) × (read_exact (length xs) s ≡ got xs s') × Holds s' ys
  pub short : (s : S) (xs : List ℕ) (n : ℕ) → Holds s xs → length xs < n → read_exact n s ≡ eof

-- The length field that `finish_frame` writes is that of the bytes behind it.
finish_frame-drop :
    (out : List ℕ) → finish_frame out ≡ put_u32 (as_u32 (length (drop 4 out))) ++ drop 4 out
unfolding finish_frame
finish_frame-drop out = rw length-drop

length-put_u32 : (n : ℕ) → length (put_u32 n) ≡ 4
unfolding put_u32
length-put_u32 n = length-le_bytes 4 n

from_le_bytes-put_u32 : (n : ℕ) → n < 2 ^ 32 → from_le_bytes (put_u32 n) ≡ n
unfolding put_u32
from_le_bytes-put_u32 n h = from_le_bytes-le_bytes 4 n h

in_bounds : (n : ℕ) → 0 < n → n ≤ max_frame_bytes → (n == 0 || ltb max_frame_bytes n) ≡ false
in_bounds n lo hi = ground arith

finish_frame-framing :
    (out : List ℕ)
    → length out < 2 ^ 32
    → finish_frame out ≡ put_u32 (length (drop 4 out)) ++ drop 4 out
finish_frame-framing out h =
    rw (← mod-eq_of_lt {n = length (drop 4 out)} {m = 2 ^ 32} (rw length-drop (omega arith)))
      (finish_frame-drop out)

header_room : (t corr : ℕ) (body : List ℕ) → 4 < length (frame_header t corr ++ body)
unfolding frame_header fields put_u8
header_room t corr body = omega arith

length_bound :
    (out : List ℕ)
    → 4 < length out
    → length (finish_frame out) ≤ 4 + max_frame_bytes
    → length out ≤ 4 + max_frame_bytes
length_bound out lo h = omega (
  arith,
  ap length (finish_frame-drop out),
  length-append (put_u32 (as_u32 (length (drop 4 out)))) (drop 4 out),
  length-put_u32 (as_u32 (length (drop 4 out))),
  length-drop 4 out,
)

module _ (src : Source) where
  open src use {S, read_exact, Holds, exact, short}

  -- A source at its end is a clean end of the connection.
  pub read_frame-empty : (s : S) → Holds s [] → read_frame read_exact s ≡ closed
  unfolding read_frame
  read_frame-empty s h = rw (short s [] 4 h (omega arith), read_frame)

  read_body-holds :
      (s : S) (body rest : List ℕ)
      → Holds s (body ++ rest)
      → (s' : S) × (read_body read_exact (length body) s ≡ frame body s') × Holds s' rest
  unfolding read_body
  read_body-holds s body rest h =
      let (s', e, h') = exact s body rest h in (s', rw (e, read_body), h')

  -- A length field of `n` bytes in front of `n` bytes, n from 1 to the maximum.
  read_frame-holds :
      (s : S) (body rest : List ℕ)
      → 0 < length body
      → length body ≤ max_frame_bytes
      → Holds s (put_u32 (length body) ++ (body ++ rest))
      → (s' : S) × (read_frame read_exact s ≡ frame body s') × Holds s' rest
  unfolding read_frame
  read_frame-holds s body rest lo hi h =
      let (s₁, e, h₁) = exact s (put_u32 (length body)) (body ++ rest) h in
      let four : read_exact 4 s ≡ got (put_u32 (length body)) s₁ = rw length-put_u32 at e in
      let (s₂, e', h₂) = read_body-holds s₁ body rest h₁ in
      (
        s₂,
        rw (four, read_frame)
            (rw (from_le_bytes-put_u32 (length body) (omega arith))
              (rw (in_bounds (length body) lo hi) e')),
        h₂,
      )

  read_frame-finish :
      (s : S) (out rest : List ℕ)
      → 4 < length out
      → length out ≤ 4 + max_frame_bytes
      → Holds s (finish_frame out ++ rest)
      → (s' : S) × (read_frame read_exact s ≡ frame (drop 4 (finish_frame out)) s') × Holds s' rest
  read_frame-finish s out rest lo hi h = rw drop-finish_frame (
      read_frame-holds s (drop 4 out) rest (rw length-drop (omega arith))
        (rw length-drop (omega arith))
        (rw append_assoc at (rw (finish_frame-framing out (omega arith)) at h)))

  -- A source that holds an encoded request and more: `read_frame` gives the bytes that
  -- `decode_request` reads back as the request with its correlation id, and the rest stays in the
  -- source. The request's fields are in range and its frame is at most 32 MiB behind the length field.
  pub read_frame-encode_request :
      (s : S) (r : Request) (corr : ℕ) (rest : List ℕ)
      → IsRequest r
      → IsU32 corr
      → length (encode_request r corr) ≤ 4 + max_frame_bytes
      → Holds s (encode_request r corr ++ rest)
      → (s' : S) × (f : List ℕ) × (read_frame read_exact s ≡ frame f s')
        × (decode_request f ≡ ok (corr, r))
        × Holds s' rest
  unfolding encode_request
  read_frame-encode_request s r corr rest hr hc hi h =
      let out = frame_header (request_type r) corr ++ put_request r in
      let lo = header_room (request_type r) corr (put_request r) in
      let (s', e, h') = read_frame-finish s out rest lo (length_bound out lo hi) h in
      (s', drop 4 (finish_frame out), e, decode_request-encode_request r corr hr hc, h')

  -- The same of an encoded response and `decode_response`.
  pub read_frame-encode_response :
      (s : S) (r : Response) (corr : ℕ) (rest : List ℕ)
      → IsResponse r
      → IsU32 corr
      → length (encode_response r corr) ≤ 4 + max_frame_bytes
      → Holds s (encode_response r corr ++ rest)
      → (s' : S) × (f : List ℕ) × (read_frame read_exact s ≡ frame f s')
        × (decode_response f ≡ ok (corr, r))
        × Holds s' rest
  unfolding encode_response
  read_frame-encode_response s r corr rest hr hc hi h =
      let out = frame_header (response_type r) corr ++ put_response r in
      let lo = header_room (response_type r) corr (put_response r) in
      let (s', e, h') = read_frame-finish s out rest lo (length_bound out lo hi) h in
      (s', drop 4 (finish_frame out), e, decode_response-encode_response r corr hr hc, h')
