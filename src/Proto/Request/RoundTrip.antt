-- ===== src/Proto/Request/RoundTrip.antt =====
-- A request's body is read back by the reader of its type.
use replog.Prelude.{ℕ, List, length, All}
use replog.Proto.Wire.{put_each, read_each, put_str, string}
use replog.Proto.Wire.Reads.{Reads, Reads-pure, Reads-bind}
use replog.Proto.Wire.Primitives.{
  IsString, Reads-u32, Reads-u64, Reads-string, Reads-each, Reads-count, All-map,
}
use replog.Proto.Codes.RoundTrip.{Reads-acks}
use replog.Proto.Records.RoundTrip.{Reads-produce_records}
use replog.Proto.Meta.RoundTrip.{Reads-ids}
use replog.Proto.Request.{
  Request, create_topic, metadata, produce, alter_isr, controller_metadata, join_group,
}
use replog.Proto.Request.Ranges.{IsRequest}
use replog.Proto.Request.Body.{
  request_type, put_request, read_create_topic, read_produce, read_replica_fetch, read_epoch_check,
  read_register_broker, read_broker_heartbeat, read_alter_isr, read_fetch, read_commit_offset,
  read_fetch_offset, read_join_group, read_heartbeat, read_leave_group, read_request,
}

pub Reads-strings :
    (ts : List (List ℕ))
    → All IsString ts
    → Reads (read_each (length ts) string) (put_each put_str ts) ts
Reads-strings ts h = Reads-each put_str string ts (All-map Reads-string ts h)

ruleset request_rules = (
  Reads-pure, Reads-bind, Reads-u32, Reads-u64, Reads-string, Reads-count, Reads-acks,
  Reads-produce_records, Reads-ids, Reads-strings,
)

pub Reads-request :
    (r : Request) → IsRequest r → Reads (read_request (request_type r)) (put_request r) r
unfolding read_request put_request request_type read_create_topic read_produce read_replica_fetch
    read_epoch_check read_register_broker read_broker_heartbeat read_alter_isr read_fetch
    read_commit_offset read_fetch_offset read_join_group read_heartbeat read_leave_group
Reads-request metadata h = Reads-pure metadata
Reads-request controller_metadata h = Reads-pure controller_metadata
Reads-request (create_topic t p f) h = search request_rules depth 12
Reads-request (produce t p a e rs) (ht, hp, he, hr) = Reads-bind _ _ _ _ t _ (Reads-string t ht) (
    Reads-bind _ _ _ _ p _ (Reads-u32 p hp)
      (Reads-bind _ _ _ _ a _ (Reads-acks a) (search request_rules depth 12)))
Reads-request (alter_isr t p e isr) (ht, hp, he, hi) = search request_rules depth 12
Reads-request (join_group g m s ts) (hg, hm, hs, ht) = search request_rules depth 12
Reads-request _ h = search request_rules depth 12
