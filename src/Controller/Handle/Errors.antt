-- ===== src/Controller/Handle/Errors.antt =====
-- The requests that the controller refuses.
use Prim.Native.Nat.{compare}
use replog.Prelude.{
  ℕ, ◌≡◌, refl, inl, inr, Bool, false, Option, none, some, List, arith, get_elem?, Option-cases,
}
use replog.Prelude.Maps.{get, compare_bytes}
use replog.Proto.Codes.{ErrorCode, is_none}
use replog.Proto.Request.{Request}
use replog.Proto.Response.{Response}
use replog.Controller.State.{BrokerState, PartitionState, State}
use replog.Controller.Handle.{
  handle, mutate, broker_heartbeat, known_error, create_topic, alter_isr, alter_partition,
}

-- The error that an answer of the controller carries.
abbrev pub error_of : Response → ErrorCode
error_of (Response.create_topic error) = error
error_of (Response.register_broker error version) = error
error_of (Response.broker_heartbeat error version) = error
error_of (Response.alter_isr error version) = error
error_of (Response.controller_metadata error cluster) = error
error_of _ = ErrorCode.none

create_topic-refused :
    (state : State) (topic : List ℕ) (partitions replication_factor : ℕ)
    → is_none (create_topic state topic partitions replication_factor).1 ≡ false
    → (create_topic state topic partitions replication_factor).0 ≡ (state, false)
unfolding create_topic
create_topic-refused state topic partitions replication_factor h = ground arith

alter_partition-refused :
    (p : PartitionState) (leader_epoch : ℕ) (isr : List ℕ)
    → is_none (alter_partition p leader_epoch isr).1 ≡ false
    → (alter_partition p leader_epoch isr).0 ≡ (p, false)
unfolding alter_partition
alter_partition-refused p leader_epoch isr h = ground arith

alter_isr-refused :
    (state : State) (topic : List ℕ) (partition leader_epoch : ℕ) (isr : List ℕ)
    → is_none (alter_isr state topic partition leader_epoch isr).1 ≡ false
    → (alter_isr state topic partition leader_epoch isr).0 ≡ (state, false)
unfolding alter_isr
alter_isr-refused state topic partition leader_epoch isr h =
    elim (Option-cases (get compare_bytes state.topics topic)) [
      | inl e ↦ rw (alter_isr, e) refl
      | inr (ps, e) ↦ elim (Option-cases (get_elem? ps partition)) [
        | inl f ↦ rw (alter_isr, e, f) refl
        | inr (p, f) ↦
            rw
              (
                alter_isr,
                e,
                f,
                alter_partition-refused p leader_epoch isr (rw (alter_isr, e, f) at h),
              )
              refl
      ]
    ]

broker_heartbeat-refused :
    (state : State) (now broker_id : ℕ) (found : Option BrokerState)
    → is_none (known_error found) ≡ false
    → broker_heartbeat state now broker_id found ≡ (state, false)
unfolding broker_heartbeat known_error
broker_heartbeat-refused state now broker_id none h = refl
broker_heartbeat-refused state now broker_id (some b) h = ground arith

mutate-false : (state : State) (r : State × Bool) → r ≡ (state, false) → mutate r ≡ state
unfolding mutate
mutate-false state r e = rw e

-- A request that the controller answers with an error leaves its state as it was.
pub handle-refused :
    (state : State) (now : ℕ) (req : Request)
    → is_none (error_of (handle state now req).1) ≡ false
    → (handle state now req).0 ≡ state
unfolding handle
handle-refused state now (Request.register_broker broker_id addr peer_addr) h = ground arith
handle-refused state now (Request.broker_heartbeat broker_id metadata_version) h =
    mutate-false state _
      (broker_heartbeat-refused state now broker_id (get compare state.brokers broker_id) h)
handle-refused state now (Request.create_topic topic partitions replication_factor) h =
    mutate-false state _ (create_topic-refused state topic partitions replication_factor h)
handle-refused state now (Request.alter_isr topic partition leader_epoch isr) h =
    mutate-false state _ (alter_isr-refused state topic partition leader_epoch isr h)
handle-refused state now _ h = refl
