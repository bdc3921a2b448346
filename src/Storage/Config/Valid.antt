-- ===== src/Storage/Config/Valid.antt =====
-- What a configuration that `validate` accepts promises.
use replog.Prelude.{refl, ◌≤◌, ◌≡◌, ◌↔◌, arith}
use replog.Storage.Config.{LogConfig, ok, validate, default_config}

pub record IsValid (c : LogConfig) : Type 0 where
  pub segment_low : 1024 ≤ c.max_segment_bytes
  pub segment_high : c.max_segment_bytes ≤ 1073741824
  pub interval : 64 ≤ c.index_interval_bytes
  pub record_high : c.max_record_bytes ≤ 1073741824

validate-IsValid : (c : LogConfig) → validate c ≡ ok tt → IsValid c
unfolding validate
validate-IsValid c h = ground arith

IsValid-validate : (c : LogConfig) → IsValid c → validate c ≡ ok tt
unfolding validate
IsValid-validate c h = ground arith

-- A configuration is accepted exactly if a segment has 1024 bytes to 1 GiB, the index interval has at
-- least 64 bytes, and a record at most 1 GiB.
pub validate_iff : (c : LogConfig) → (validate c ≡ ok tt) ↔ IsValid c
validate_iff c = (validate-IsValid c, IsValid-validate c)

default_accepted : validate default_config ≡ ok tt
unfolding validate
default_accepted = refl
