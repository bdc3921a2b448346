-- ===== src/Storage/Segment/Terminates.antt =====
-- The scan of `recover` ends.
use replog.Prelude.{
  ℕ, zero, suc, ◌<◌, ◌≤◌, Bool, true, false, ◌||◌, Option, List, length, drop, length-drop, arith,
  ◌==◌, if◌then◌else◌,
}
use replog.Storage.Record.{Record, DecodeOutcome, decoded, incomplete, corrupt, decode}
use replog.Storage.Record.Consumed.{Fits, decode-Fits}
use replog.Storage.Config.{LogConfig, Result, ok, err, panicked, stuck, ◌>>=◌}
use replog.Storage.Index
use replog.Storage.Config
use replog.Storage.Segment.{Scan, scan_record, scan, start_of, recover}

abbrev pub Ends : {A : Type 0} → Result A → Type 0
Ends (ok a) = Unit {0}
Ends (err e) = Unit {0}
Ends panicked = Unit {0}
Ends stuck = ⊥

pub Ends-bind :
    {A B : Type 0} (m : Result A) (f : A → Result B)
    → Ends m
    → ((a : A) → Ends (f a))
    → Ends (m >>= f)
Ends-bind (ok a) f h k = k a
Ends-bind (err e) f h k = tt
Ends-bind panicked f h k = tt
Ends-bind stuck f h k = h

pub Ends-if : {A : Type 0} (b : Bool) (x y : Result A) → Ends x → Ends y → Ends (if b then x else y)
Ends-if true x y h k = h
Ends-if false x y h k = k

module _ (crc32 : List ℕ → ℕ) (config : LogConfig) where
  scan_record-Ends :
      (rebuild : Bool) (base : ℕ) (s : Scan) (r : Record) (consumed : ℕ)
      → Ends (scan_record crc32 config rebuild base s r consumed)
  unfolding scan_record
  scan_record-Ends rebuild base s r consumed = Ends-if _ (err _) (ok _) tt tt

  pub shorter :
      (fuel consumed : ℕ) (rest : List ℕ)
      → length rest < suc fuel
      → 32 ≤ consumed
      → consumed ≤ length rest
      → length (drop consumed rest) < fuel
  shorter fuel consumed rest f low high = omega (arith, f, low, high, length-drop consumed rest)

  scan-Ends :
      (fuel : ℕ) (rebuild truncate : Bool) (base : ℕ) (s : Scan) (rest : List ℕ)
      → length rest < fuel
      → Ends (scan crc32 config fuel rebuild truncate base s rest)
  unfolding scan
  scan-Ends zero rebuild truncate base s rest f = elim f [ ]
  scan-Ends (suc fuel) rebuild truncate base s rest f =
      outcome (decode crc32 rest config.max_record_bytes)
        (decode-Fits crc32 rest config.max_record_bytes)
        (λ s' rest'. scan-Ends fuel rebuild truncate base s' rest')
    where
      outcome :
          (o : DecodeOutcome)
          → Fits (length rest) o
          → ((s' : Scan) (rest' : List ℕ)
              → length rest' < fuel
              → Ends (scan crc32 config fuel rebuild truncate base s' rest'))
          → Ends (elim o [
            | decoded r consumed ↦ scan_record crc32 config rebuild base s r consumed >>= λ s'.
                scan crc32 config fuel rebuild truncate base s' (drop consumed rest)
            | incomplete ↦
                if length rest == 0 || truncate
                then ok s
                else err (Config.corrupt_at s.next_offset s.valid_end Config.incomplete_record)
            | corrupt reason ↦
                if truncate
                then ok s
                else err (Config.corrupt_at s.next_offset s.valid_end (Config.bad_record reason))
          ])
      outcome (decoded r consumed) (low, high) again =
          Ends-bind (scan_record crc32 config rebuild base s r consumed) _
            (scan_record-Ends rebuild base s r consumed)
            (λ s'. again s' (drop consumed rest) (shorter fuel consumed rest f low high))
      outcome incomplete h again = search Ends-if
      outcome (corrupt reason) h again = search Ends-if

  -- Recovery never runs out of the model's fuel: it ends with a segment, an error or a panic, whatever
  -- the files hold.
  pub recover-Ends :
      (base : ℕ) (file : List ℕ) (index_file : Option (List ℕ)) (truncate : Bool)
      → Ends (recover crc32 config base file index_file truncate)
  unfolding recover
  recover-Ends base file index_file truncate =
      let start = start_of crc32 config base (Index.load index_file) truncate in
      Ends-if _ panicked _ tt (
        Ends-bind
          (scan crc32 config (suc (length file)) start.rebuild truncate base start.scan
            (drop start.scan.valid_end file))
          _
          (scan-Ends (suc (length file)) start.rebuild truncate base start.scan
            (drop start.scan.valid_end file) (omega (arith, length-drop start.scan.valid_end file)))
          (λ s. tt))
