-- ===== src/Proto/Prefix.antt =====
-- The readers of src/proto/mod.rs do not look past what they take.
use replog.Prelude.{ℕ}
use replog.Proto.Wire.Prefix.{Extends, prefix_rules}
use replog.Proto.Codes.{error_from_u16, read_error, acks_from_u8, read_acks}
use replog.Proto.Records.{read_produce_record, read_fetched_record}
use replog.Proto.Meta.{read_broker_addr, read_partition_meta, read_topic_meta, read_cluster_meta}
use replog.Proto.Request.Body
use replog.Proto.Request.Body.{read_request}
use replog.Proto.Response.Body as Reply
use replog.Proto.Response.Body.{read_response}

Extends-error_from_u16 : (v : ℕ) → Extends (error_from_u16 v)
unfolding error_from_u16
Extends-error_from_u16 v = search prefix_rules depth 16

Extends-error : Extends read_error
unfolding read_error
Extends-error = search (prefix_rules, Extends-error_from_u16)

Extends-acks_from_u8 : (v : ℕ) → Extends (acks_from_u8 v)
unfolding acks_from_u8
Extends-acks_from_u8 v = search prefix_rules depth 8

Extends-acks : Extends read_acks
unfolding read_acks
Extends-acks = search (prefix_rules, Extends-acks_from_u8)

Extends-produce_record : Extends read_produce_record
unfolding read_produce_record
Extends-produce_record = search prefix_rules depth 8

Extends-fetched_record : Extends read_fetched_record
unfolding read_fetched_record
Extends-fetched_record = search prefix_rules depth 8

Extends-broker_addr : Extends read_broker_addr
unfolding read_broker_addr
Extends-broker_addr = search prefix_rules depth 8

Extends-partition_meta : Extends read_partition_meta
unfolding read_partition_meta
Extends-partition_meta = search prefix_rules depth 12

Extends-topic_meta : Extends read_topic_meta
unfolding read_topic_meta
Extends-topic_meta = search (prefix_rules, Extends-partition_meta) depth 8

Extends-cluster_meta : Extends read_cluster_meta
unfolding read_cluster_meta
Extends-cluster_meta = search (prefix_rules, Extends-broker_addr, Extends-topic_meta) depth 12

ruleset body_rules = (
  prefix_rules, Extends-error, Extends-acks, Extends-produce_record, Extends-fetched_record,
  Extends-cluster_meta,
)

pub Extends-request : (t : ℕ) → Extends (read_request t)
unfolding read_request Body.read_create_topic Body.read_produce Body.read_replica_fetch
    Body.read_epoch_check Body.read_register_broker Body.read_broker_heartbeat Body.read_alter_isr
    Body.read_fetch Body.read_commit_offset Body.read_fetch_offset Body.read_join_group
    Body.read_heartbeat Body.read_leave_group
Extends-request t = search body_rules depth 26 fits 20000

Extends-slot : Extends Reply.read_slot
unfolding Reply.read_slot
Extends-slot = search prefix_rules

pub Extends-response : (t : ℕ) → Extends (read_response t)
unfolding read_response Reply.read_create_topic Reply.read_metadata Reply.read_replica_fetch
    Reply.read_epoch_check Reply.read_register_broker Reply.read_broker_heartbeat
    Reply.read_alter_isr Reply.read_controller_metadata Reply.read_produce Reply.read_fetch
    Reply.read_commit_offset Reply.read_fetch_offset Reply.read_join_group Reply.read_heartbeat
    Reply.read_leave_group
Extends-response t = search (body_rules, Extends-slot) depth 26 fits 20000
