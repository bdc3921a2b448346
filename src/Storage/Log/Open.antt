-- ===== src/Storage/Log/Open.antt =====
-- src/storage/log.rs: opening a log. The directory is the list of the names that end in ".log", each
-- as the base offset that its stem parses to, `none` where it does not parse; `disk` has the contents
-- of the log file and of the index file of a base.
use Prim.Native.Nat.{compare}
use replog.Prelude.{
  ℕ, ◌≡◌, Bool, true, false, not, Option, none, some, List, [], ◌∷◌, ◌==◌, if◌then◌else◌,
}
use replog.Prelude.Maps.{insert}
use replog.Prelude.Sort.{sort}
use replog.Storage.Config.{
  LogConfig, Result, ok, err, panicked, invalid_layout, segment_name, segment_base, validate, ◌>>=◌,
}
use replog.Storage.Config.Returns.{Returns, Returns-ok, Returns-bind, Returns-total}
use replog.Storage.Segment
use replog.Storage.Segment.{Segment, recover}
use replog.Storage.Log.{Log, checked_pred}
use replog.Storage.Log.Durable.{IsLog, checked_pred-IsBelow}

-- A log file and its index file.
abbrev pub Disk : Type 0
Disk = ℕ → List ℕ × Option (List ℕ)

-- The loop over the directory.
unfoldable pub parse_names : List (Option ℕ) → Result (List ℕ)
parse_names [] = ok []
parse_names (none ∷ names) = err (invalid_layout segment_name)
parse_names (some base ∷ names) = parse_names names >>= λ bases. ok (base ∷ bases)

-- `bases.last()`
unfoldable pub last_base : ℕ → List ℕ → ℕ
last_base base [] = base
last_base base (b ∷ bs) = last_base b bs

-- Whether the segment continues the one before it.
unfoldable pub continues : Option ℕ → ℕ → Bool
continues none base = true
continues (some expected) base = base == expected

unfoldable pub expected_or : Option ℕ → ℕ
expected_or none = 0
expected_or (some expected) = expected

-- The segments that the loop has opened.
abbrev pub Opened : Type 0
Opened = List (ℕ × Segment) × Option Segment

unfoldable pub place : Bool → Opened → ℕ → Segment → Opened
place true opened base seg = (opened.0, some seg)
place false opened base seg = (insert compare opened.0 base seg, opened.1)

module _ (crc32 : List ℕ → ℕ) (config : LogConfig) (disk : Disk) where
  unfoldable pub open_segments : ℕ → Option ℕ → Opened → List ℕ → Result Opened
  unfolding place continues
  open_segments last expected opened [] = ok opened
  open_segments last expected opened (base ∷ bases) =
      recover crc32 config base (disk base).0 (disk base).1 (base == last) >>= λ seg.
      if not (continues expected base)
      then err (invalid_layout (segment_base base (expected_or expected)))
      else open_segments last (some seg.next_offset) (place (base == last) opened base seg) bases

  unfoldable pub opened_log : ℕ → Opened → Result Log
  opened_log now (closed, none) = panicked
  opened_log now (closed, some active) = ok (record {
    closed = closed;
    active = active;
    durable_offset = checked_pred active.next_offset;
    dirty_bytes = 0;
    last_flush = now;
  })

  unfoldable pub open_bases : ℕ → List ℕ → Result Log
  open_bases now [] = ok (record {
    closed = [];
    active = Segment.create 0;
    durable_offset = none;
    dirty_bytes = 0;
    last_flush = now;
  })
  open_bases now (base ∷ bases) =
      open_segments (last_base base bases) none ([], none) (base ∷ bases) >>= λ opened.
      opened_log now opened

  unfoldable pub open_log : ℕ → List (Option ℕ) → Result Log
  open_log now names =
      validate config >>= λ valid. parse_names names >>= λ bases. open_bases now (sort bases)

  opened_log-IsLog : (now : ℕ) (opened : Opened) → Returns IsLog (opened_log now opened)
  unfolding opened_log
  opened_log-IsLog now (closed, none) = tt
  opened_log-IsLog now (closed, some active) = checked_pred-IsBelow active.next_offset

  open_bases-IsLog : (now : ℕ) (bases : List ℕ) → Returns IsLog (open_bases now bases)
  unfolding open_bases
  open_bases-IsLog now [] = tt
  open_bases-IsLog now (base ∷ bases) =
      let segments = open_segments (last_base base bases) none ([], none) (base ∷ bases) in
      Returns-bind IsLog (λ opened. Unit {0}) segments _
        (Returns-total (λ opened. Unit {0}) segments (λ opened. tt))
        (λ opened u. opened_log-IsLog now opened)

  -- A log that opens is one whose durable offset, if there is one, it has.
  pub open_log-IsLog :
      (now : ℕ) (names : List (Option ℕ)) (log : Log) → open_log now names ≡ ok log → IsLog log
  unfolding open_log
  open_log-IsLog now names log e = Returns-ok IsLog (open_log now names) log e (
      Returns-bind IsLog (λ v. Unit {0}) (validate config) _
        (Returns-total (λ v. Unit {0}) (validate config) (λ v. tt))
        (λ v u.
          Returns-bind IsLog (λ bases. Unit {0}) (parse_names names) _
            (Returns-total (λ bases. Unit {0}) (parse_names names) (λ bases. tt))
            (λ bases u'. open_bases-IsLog now (sort bases))))
