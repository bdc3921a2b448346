-- ===== src/Storage/Segment.antt =====
-- src/storage/segment.rs: one segment of a log. `file` is the contents of the log file.
pub mod Recover
pub mod Terminates
pub mod Read
pub mod Reads
pub mod Bounds
use replog.Prelude.{
  ℕ, zero, suc, ◌+◌, ◌-◌, ◌≡◌, Bool, true, false, not, ◌&&◌, ◌||◌, Option, none, some, List, [],
  ◌∷◌, ◌++◌, length, take, drop, ltb, leb, ◌==◌, if◌then◌else◌,
}
use replog.Proto.Wire.{as_u32}
use replog.Storage.Record.{Record, DecodeOutcome, decoded, incomplete, corrupt, encode, decode}
use replog.Storage.Config.{
  LogConfig, Result, ok, err, panicked, stuck, corrupt_at, offset_out_of_range,
  offset_discontinuity, incomplete_record, offset_not_found, bad_record, ◌>>=◌,
}
use replog.Storage.Index
use replog.Storage.Index.{Entry}

pub record Segment : Type 0 where
  pub base_offset : ℕ
  pub file : List ℕ
  pub index : List Entry
  pub next_offset : ℕ
  pub size : ℕ
  pub bytes_since_index : ℕ

unfoldable pub create : ℕ → Segment
create base_offset = record {
  base_offset = base_offset;
  file = [];
  index = [];
  next_offset = base_offset;
  size = 0;
  bytes_since_index = 0;
}

-- The variables of the loop in `recover`.
pub record Scan : Type 0 where
  pub index : List Entry
  pub next_offset : ℕ
  pub bytes_since_index : ℕ
  pub valid_end : ℕ

-- Where the scan starts, and whether the index is built anew.
pub record Start : Type 0 where
  pub scan : Scan
  pub rebuild : Bool

module _ (crc32 : List ℕ → ℕ) (config : LogConfig) where
  -- The arm of the loop for a decoded record.
  unfoldable pub scan_record : Bool → ℕ → Scan → Record → ℕ → Result Scan
  scan_record rebuild base_offset s r consumed =
      let due = rebuild && leb config.index_interval_bytes s.bytes_since_index in
      if not (r.offset == s.next_offset)
      then err (corrupt_at r.offset s.valid_end (offset_discontinuity s.next_offset))
      else ok (record {
        index =
            if due
            then Index.append s.index (as_u32 (r.offset - base_offset)) (as_u32 s.valid_end)
            else s.index;
        bytes_since_index = (if due then 0 else s.bytes_since_index) + consumed;
        next_offset = s.next_offset + 1;
        valid_end = s.valid_end + consumed;
      })

  -- The loop of `recover`; `rest` is `buf[pos_in_buf..]`.
  unfoldable pub scan : ℕ → Bool → Bool → ℕ → Scan → List ℕ → Result Scan
  scan zero rebuild truncate base_offset s rest = stuck
  scan (suc fuel) rebuild truncate base_offset s rest =
      elim (decode crc32 rest config.max_record_bytes) [
        | decoded r consumed ↦ scan_record rebuild base_offset s r consumed >>= λ s'.
            scan fuel rebuild truncate base_offset s' (drop consumed rest)
        | incomplete ↦
            if length rest == 0 || truncate
            then ok s
            else err (corrupt_at s.next_offset s.valid_end incomplete_record)
        | corrupt reason ↦
            if truncate
            then ok s
            else err (corrupt_at s.next_offset s.valid_end (bad_record reason))
      ]

  unfoldable pub start_at : ℕ → List Entry → Option Entry → Start
  start_at base_offset index none = record {
    scan = record {
      index = index;
      next_offset = base_offset;
      bytes_since_index = 0;
      valid_end = 0;
    };
    rebuild = false;
  }
  start_at base_offset index (some e) = record {
    scan = record {
      index = index;
      next_offset = base_offset + e.0;
      bytes_since_index = 0;
      valid_end = e.1;
    };
    rebuild = false;
  }

  -- `SparseIndex::create` and a scan of the whole file.
  unfoldable pub start_anew : ℕ → Start
  start_anew base_offset = record {
    scan = record { index = []; next_offset = base_offset; bytes_since_index = 0; valid_end = 0 };
    rebuild = true;
  }

  unfoldable pub start_of : ℕ → Option (List Entry) → Bool → Start
  start_of base_offset loaded true = start_anew base_offset
  start_of base_offset none false = start_anew base_offset
  start_of base_offset (some index) false = start_at base_offset index (Index.last index)

  -- The segment that `recover` returns, its file cut at the end of the valid records.
  unfoldable pub finish : ℕ → List ℕ → Scan → Segment
  finish base_offset file s = record {
    base_offset = base_offset;
    file = if ltb s.valid_end (length file) then take s.valid_end file else file;
    index = s.index;
    next_offset = s.next_offset;
    size = s.valid_end;
    bytes_since_index = s.bytes_since_index;
  }

  -- A start position behind the end of the file makes `file_len - scan_pos` overflow: a panic, at the
  -- subtraction or at the capacity that it asks for. A scan takes at least 32 bytes a round, so the
  -- length of the file is fuel enough.
  unfoldable pub recover : ℕ → List ℕ → Option (List ℕ) → Bool → Result Segment
  unfolding start_of start_anew start_at finish
  recover base_offset file index_file truncate_torn_tail =
      let start = start_of base_offset (Index.load index_file) truncate_torn_tail in
      let scanned =
        scan (suc (length file)) start.rebuild truncate_torn_tail base_offset start.scan
          (drop start.scan.valid_end file) in
      if ltb (length file) start.scan.valid_end
      then panicked
      else scanned >>= λ s. ok (finish base_offset file s)

  -- `append`, with the bytes written.
  unfoldable pub append : Segment → Record → Segment × ℕ
  append seg r =
      let buf = encode crc32 r in
      let due = leb config.index_interval_bytes seg.bytes_since_index in
      (
        record seg {
          index =
              if due
              then Index.append seg.index (as_u32 (r.offset - seg.base_offset)) (as_u32 seg.size)
              else seg.index;
          file = seg.file ++ buf;
          size = seg.size + length buf;
          bytes_since_index = (if due then 0 else seg.bytes_since_index) + length buf;
          next_offset = seg.next_offset + 1;
        },
        length buf,
      )
