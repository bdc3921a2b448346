-- ===== src/Proto/Records.antt =====
-- `ProduceRecord` and `FetchedRecord` of src/proto/mod.rs, as the messages carry them.
pub mod RoundTrip
use replog.Prelude.{ℕ, Option, List, [], ◌∷◌}
use replog.Prelude.Int.{ℤ}
use replog.Proto.Wire.{
  fields, put_u64, put_i64, put_bytes, put_opt_bytes, u64, i64, bytes, opt_bytes,
}
use replog.Proto.Wire.Monad.{Reader, pure, ◌>>=◌}

pub record ProduceRecord : Type 0 where
  pub key : Option (List ℕ)
  pub value : List ℕ

pub record FetchedRecord : Type 0 where
  pub offset : ℕ
  pub timestamp_ms : ℤ
  pub key : Option (List ℕ)
  pub value : List ℕ

unfoldable pub put_produce_record : ProduceRecord → List ℕ
put_produce_record r = fields (put_opt_bytes r.key ∷ put_bytes r.value ∷ [])

unfoldable pub read_produce_record : Reader ProduceRecord
read_produce_record = do key ← opt_bytes; value ← bytes; pure (record { key = key; value = value })

unfoldable pub put_fetched_record : FetchedRecord → List ℕ
put_fetched_record r =
    fields
      (put_u64 r.offset ∷ put_i64 r.timestamp_ms ∷ put_opt_bytes r.key ∷ put_bytes r.value ∷ [])

unfoldable pub read_fetched_record : Reader FetchedRecord
read_fetched_record = do
  offset ← u64
  timestamp_ms ← i64
  key ← opt_bytes
  value ← bytes
  pure (record { offset = offset; timestamp_ms = timestamp_ms; key = key; value = value })
