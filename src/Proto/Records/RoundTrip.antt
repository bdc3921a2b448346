-- ===== src/Proto/Records/RoundTrip.antt =====
-- Records are read back as they were put.
use replog.Prelude.{List, length, All}
use replog.Proto.Wire.{put_each, read_each}
use replog.Proto.Wire.Reads.{Reads, Reads-pure, Reads-bind}
use replog.Proto.Wire.Primitives.{
  IsU64, IsI64, IsBlob, IsOptBlob, Reads-u64, Reads-i64, Reads-bytes, Reads-opt_bytes, Reads-each,
  All-map,
}
use replog.Proto.Records.{
  ProduceRecord, FetchedRecord, put_produce_record, read_produce_record, put_fetched_record,
  read_fetched_record,
}

-- The values that the fields of the source's types and their length fields can hold.
pub record IsProduceRecord (r : ProduceRecord) : Type 0 where
  pub key : IsOptBlob r.key
  pub value : IsBlob r.value

pub record IsFetchedRecord (r : FetchedRecord) : Type 0 where
  pub offset : IsU64 r.offset
  pub timestamp_ms : IsI64 r.timestamp_ms
  pub key : IsOptBlob r.key
  pub value : IsBlob r.value

ruleset record_rules = (Reads-pure, Reads-bind, Reads-u64, Reads-i64, Reads-bytes, Reads-opt_bytes)

Reads-produce_record :
    (r : ProduceRecord) → IsProduceRecord r → Reads read_produce_record (put_produce_record r) r
unfolding read_produce_record put_produce_record
Reads-produce_record r h = let k = h.key in let v = h.value in search record_rules

Reads-fetched_record :
    (r : FetchedRecord) → IsFetchedRecord r → Reads read_fetched_record (put_fetched_record r) r
unfolding read_fetched_record put_fetched_record
Reads-fetched_record r h = search record_rules depth 8

pub Reads-produce_records :
    (rs : List ProduceRecord)
    → All IsProduceRecord rs
    → Reads (read_each (length rs) read_produce_record) (put_each put_produce_record rs) rs
Reads-produce_records rs h =
    Reads-each put_produce_record read_produce_record rs (All-map Reads-produce_record rs h)

pub Reads-fetched_records :
    (rs : List FetchedRecord)
    → All IsFetchedRecord rs
    → Reads (read_each (length rs) read_fetched_record) (put_each put_fetched_record rs) rs
Reads-fetched_records rs h =
    Reads-each put_fetched_record read_fetched_record rs (All-map Reads-fetched_record rs h)
