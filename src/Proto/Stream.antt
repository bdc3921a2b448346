-- ===== src/Proto/Stream.antt =====
-- `read_frame` of src/proto/mod.rs over a byte source. `read_exact` is tokio's, and a parameter.
pub mod Laws
use replog.Prelude.{ℕ, List, ltb, ◌==◌, ◌||◌, if◌then◌else◌}
use replog.Proto.Wire.Bytes.{from_le_bytes}

-- What `read_exact` of n bytes does: n bytes and the source behind them, the end of the input
-- before n bytes were read, or another error.
pub data Exact (S : Type 0) : Type 0 where
  got : List ℕ → S → Exact S
  eof failed : Exact S

-- `Ok(Some(frame))`, `Ok(None)` and the error cases of `read_frame`.
pub data FrameRead (S : Type 0) : Type 0 where
  frame : List ℕ → S → FrameRead S
  closed : FrameRead S
  length_out_of_bounds : ℕ → FrameRead S
  io_error : FrameRead S

abbrev pub max_frame_bytes : ℕ
max_frame_bytes = 33554432

module _ {S : Type 0} (read_exact : ℕ → S → Exact S) where
  pub read_body : ℕ → S → FrameRead S
  read_body len s = elim (read_exact len s) [
    | got bytes s' ↦ frame bytes s'
    | eof ↦ io_error
    | failed ↦ io_error
  ]

  -- the part behind the length field's `read_exact`
  pub read_after : Exact S → FrameRead S
  read_after (got len_buf s) =
      let len = from_le_bytes len_buf in
      if len == 0 || ltb max_frame_bytes len then length_out_of_bounds len else read_body len s
  read_after eof = closed
  read_after failed = io_error

  pub read_frame : S → FrameRead S
  unfolding read_after
  read_frame s = read_after (read_exact 4 s)
