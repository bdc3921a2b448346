-- ===== src/Proto/Response/RoundTrip.antt =====
-- A response's body is read back by the reader of its type.
use replog.Prelude.{ℕ, List, length, All, ◌∷◌}
use replog.Proto.Wire.{put_each, read_each, put_u16, fields}
use replog.Proto.Wire.Monad.{Reader, ◌>>=◌}
use replog.Proto.Wire.Reads.{Reads, Reads-pure, Reads-bind}
use replog.Proto.Wire.Primitives.{
  Reads-u32, Reads-u64, Reads-i64, Reads-string, Reads-each, Reads-count, All-map,
}
use replog.Proto.Codes.{ErrorCode, error_as_u16, read_error}
use replog.Proto.Codes.RoundTrip.{Reads-error}
use replog.Proto.Records.RoundTrip.{Reads-fetched_records}
use replog.Proto.Meta.RoundTrip.{Reads-cluster_meta}
use replog.Proto.Response.{
  Response, create_topic, metadata, produce, fetch, replica_fetch, epoch_check, register_broker,
  broker_heartbeat, alter_isr, controller_metadata, commit_offset, fetch_offset, join_group,
  heartbeat, leave_group,
}
use replog.Proto.Response.Ranges.{IsSlot, IsResponse}
use replog.Proto.Response.Body.{
  response_type, put_response, put_slot, read_slot, read_create_topic, read_metadata,
  read_replica_fetch, read_epoch_check, read_register_broker, read_broker_heartbeat, read_alter_isr,
  read_controller_metadata, read_produce, read_fetch, read_commit_offset, read_fetch_offset,
  read_join_group, read_heartbeat, read_leave_group, read_response,
}

ruleset response_rules = (
  Reads-pure, Reads-bind, Reads-u32, Reads-u64, Reads-i64, Reads-string, Reads-count,
  Reads-fetched_records, Reads-cluster_meta,
)

Reads-slot : (s : List ℕ × ℕ) → IsSlot s → Reads read_slot (put_slot s) s
unfolding read_slot put_slot
Reads-slot s h = search response_rules

Reads-slots :
    (ss : List (List ℕ × ℕ))
    → All IsSlot ss
    → Reads (read_each (length ss) read_slot) (put_each put_slot ss) ss
Reads-slots ss h = Reads-each put_slot read_slot ss (All-map Reads-slot ss h)

-- Every response begins with its error code.
Reads-bind_error :
    {B : Type 0} (f : ErrorCode → Reader B) (e : ErrorCode) (bs : List (List ℕ)) (x : B)
    → Reads (f e) (fields bs) x
    → Reads (do c ← read_error; f c) (fields (put_u16 (error_as_u16 e) ∷ bs)) x
Reads-bind_error f e bs x h = Reads-bind read_error f _ bs e x (Reads-error e) h

pub Reads-response :
    (r : Response) → IsResponse r → Reads (read_response (response_type r)) (put_response r) r
unfolding read_response put_response response_type read_create_topic read_metadata
    read_replica_fetch read_epoch_check read_register_broker read_broker_heartbeat read_alter_isr
    read_controller_metadata read_produce read_fetch read_commit_offset read_fetch_offset
    read_join_group read_heartbeat read_leave_group
Reads-response (fetch e s n rs) (hs, hn, hr) =
    Reads-bind_error _ e _ _ (search response_rules depth 12)
Reads-response (replica_fetch e l n k rs) (hl, hn, hk, hr) =
    Reads-bind_error _ e _ _ (search response_rules depth 12)
Reads-response (join_group e m g a) (hm, hg, ha) =
    Reads-bind_error _ e _ _ (search (response_rules, Reads-slots) depth 12)
Reads-response (create_topic e) h = Reads-bind_error _ e _ _ (search response_rules)
Reads-response (metadata e c) h = Reads-bind_error _ e _ _ (search response_rules)
Reads-response (produce e b n) h = Reads-bind_error _ e _ _ (search response_rules)
Reads-response (epoch_check e o) h = Reads-bind_error _ e _ _ (search response_rules)
Reads-response (register_broker e v) h = Reads-bind_error _ e _ _ (search response_rules)
Reads-response (broker_heartbeat e v) h = Reads-bind_error _ e _ _ (search response_rules)
Reads-response (alter_isr e v) h = Reads-bind_error _ e _ _ (search response_rules)
Reads-response (controller_metadata e c) h = Reads-bind_error _ e _ _ (search response_rules)
Reads-response (commit_offset e) h = Reads-bind_error _ e _ _ (search response_rules)
Reads-response (fetch_offset e o) h = Reads-bind_error _ e _ _ (search response_rules)
Reads-response (heartbeat e) h = Reads-bind_error _ e _ _ (search response_rules)
Reads-response (leave_group e) h = Reads-bind_error _ e _ _ (search response_rules)
