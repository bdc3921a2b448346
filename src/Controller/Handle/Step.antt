-- ===== src/Controller/Handle/Step.antt =====
-- The steps of the controller: a request handled, or a sweep.
use Prim.Native.Nat.{compare}
use replog.Prelude.{ℕ}
use replog.Prelude.Maps.{get}
use replog.Proto.Request.{Request}
use replog.Controller.State.{State, empty}
use replog.Controller.Elect.IsPartition.{IsI31}
use replog.Controller.Handle.{
  handle, sweep_liveness, register_broker, broker_heartbeat, create_topic, alter_isr,
}
use replog.Controller.Handle.IsState.{
  IsSound, mutate-IsSound, register_broker-IsSound, broker_heartbeat-IsSound,
  sweep_liveness-IsSound,
}
use replog.Controller.Handle.Topics.{create_topic-IsSound}
use replog.Controller.Handle.AlterIsr.{alter_isr-IsSound}

-- The id of the broker in a request is one that `as i32` keeps.
abbrev pub IsFrom : Request → Type 0
IsFrom (Request.register_broker broker_id addr peer_addr) = IsI31 broker_id
IsFrom (Request.broker_heartbeat broker_id metadata_version) = IsI31 broker_id
IsFrom _ = Unit {0}

pub data Step (timeout : ℕ) : State → State → Type 0 where
  handled :
      (state : State) (now : ℕ) (req : Request)
      → IsFrom req
      → Step timeout state (handle state now req).0
  swept : (state : State) (now : ℕ) → Step timeout state (sweep_liveness timeout state now)

-- The states of a controller that started without a snapshot.
pub data Reachable (timeout : ℕ) : State → Type 0 where
  started : Reachable timeout empty
  after :
      (state state' : State)
      → Reachable timeout state
      → Step timeout state state'
      → Reachable timeout state'

handle-IsSound :
    (state : State) (now : ℕ) (req : Request)
    → IsFrom req
    → IsSound state
    → IsSound (handle state now req).0
unfolding handle
handle-IsSound state now (Request.register_broker broker_id addr peer_addr) i h =
    mutate-IsSound (register_broker state now broker_id addr peer_addr)
      (register_broker-IsSound state now broker_id addr peer_addr i h.0)
handle-IsSound state now (Request.broker_heartbeat broker_id metadata_version) i h =
    let found = get compare state.brokers broker_id in
    mutate-IsSound (broker_heartbeat state now broker_id found)
      (broker_heartbeat-IsSound state now broker_id found i h)
handle-IsSound state now (Request.create_topic topic partitions replication_factor) i h =
    mutate-IsSound (create_topic state topic partitions replication_factor).0
      (create_topic-IsSound state topic partitions replication_factor h)
handle-IsSound state now (Request.alter_isr topic partition leader_epoch isr) i h =
    mutate-IsSound (alter_isr state topic partition leader_epoch isr).0
      (alter_isr-IsSound state topic partition leader_epoch isr h)
handle-IsSound state now _ i h = h

Step-IsSound :
    (timeout : ℕ) (state state' : State)
    → Step timeout state state'
    → IsSound state
    → IsSound state'
Step-IsSound timeout _ _ (Step.handled state now req i) h = handle-IsSound state now req i h
Step-IsSound timeout _ _ (Step.swept state now) h = sweep_liveness-IsSound timeout state now h

-- In every state that a controller reaches from the empty one, with broker ids below 2 ^ 31: the
-- ISR of each partition is among its replicas, its leader is in the ISR and alive or there is
-- none, and the ids of the brokers and replicas are below 2 ^ 31.
pub Reachable-IsSound : (timeout : ℕ) (state : State) → Reachable timeout state → IsSound state
unfolding empty
Reachable-IsSound timeout _ Reachable.started = ((tt, tt), tt)
Reachable-IsSound timeout _ (Reachable.after state state' r s) =
    Step-IsSound timeout state state' s (Reachable-IsSound timeout state r)
