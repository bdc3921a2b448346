-- ===== src/Storage/Config.antt =====
-- src/storage/mod.rs: the configuration and the errors.
pub mod Valid
pub mod Returns
pub mod Parse
use replog.Prelude.{ℕ, ◌+◌, ◌≡◌, refl, ltb, ◌||◌, if◌then◌else◌}
use replog.Storage.Record.{Reason}

pub data FsyncPolicy : Type 0 where
  always os : FsyncPolicy
  -- max_bytes, max_ms
  batch : ℕ → ℕ → FsyncPolicy

pub record LogConfig : Type 0 where
  pub max_segment_bytes : ℕ
  pub index_interval_bytes : ℕ
  pub max_record_bytes : ℕ
  pub fsync : FsyncPolicy

-- `LogConfig::default`
abbrev pub default_config : LogConfig
default_config = record {
  max_segment_bytes = 134217728;
  index_interval_bytes = 4096;
  max_record_bytes = 16777216;
  fsync = batch 1048576 50;
}

-- The `reason` of a `Corrupt` error, as data.
pub data CorruptReason : Type 0 where
  offset_discontinuity : ℕ → CorruptReason
  incomplete_record offset_not_found : CorruptReason
  bad_record : Reason → CorruptReason

-- The text of the other errors, as data.
pub data LayoutReason : Type 0 where
  replicated_append segment_base : ℕ → ℕ → LayoutReason
  segment_name : LayoutReason

pub data ConfigReason : Type 0 where
  segment_bytes interval_bytes record_bytes : ConfigReason

pub data StorageError : Type 0 where
  -- offset, position, reason
  corrupt_at : ℕ → ℕ → CorruptReason → StorageError
  offset_out_of_range record_too_large : ℕ → StorageError
  invalid_layout : LayoutReason → StorageError
  invalid_config : ConfigReason → StorageError

-- `panicked` is a panic of the source; `stuck` is no result of it: a loop of the model ran out of fuel.
pub data Result {ℓ} (A : Type ℓ) : Type ℓ where
  ok : A → Result A
  err : StorageError → Result A
  panicked stuck : Result A

infixl 5 ◌>>=◌
abbrev pub ◌>>=◌ {ℓ κ} : {A : Type ℓ} {B : Type κ} → Result A → (A → Result B) → Result B
ok a >>= f = f a
err e >>= f = err e
panicked >>= f = panicked
stuck >>= f = stuck

unfoldable pub validate : LogConfig → Result (Unit {0})
validate c =
    if ltb c.max_segment_bytes 1024 || ltb 1073741824 c.max_segment_bytes
    then err (invalid_config segment_bytes)
    else if ltb c.index_interval_bytes 64
    then err (invalid_config interval_bytes)
    else if ltb 1073741824 c.max_record_bytes
    then err (invalid_config record_bytes)
    else ok tt
