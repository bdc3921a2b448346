-- ===== src/Controller/State.antt =====
-- The state of src/controller/mod.rs. A HashMap is the list of its entries in order of the keys, so
-- that the sorts before a snapshot and before an answer have nothing left to do. An `Instant` is a
-- number of the unit that the session timeout has.
use replog.Prelude.{ℕ, Bool, List, [], ◌∷◌, if◌then◌else◌}
use replog.Prelude.Int.{ℤ}

pub record BrokerState : Type 0 where
  pub addr : List ℕ
  pub peer_addr : List ℕ
  pub alive : Bool
  pub last_heartbeat : ℕ

pub record PartitionState : Type 0 where
  pub leader : ℤ
  pub leader_epoch : ℕ
  pub replicas : List ℕ
  pub isr : List ℕ

pub record State : Type 0 where
  pub version : ℕ
  pub brokers : List (ℕ × BrokerState)
  pub topics : List (List ℕ × List PartitionState)

-- The state without a snapshot.
unfoldable pub empty : State
empty = record { version = 0; brokers = []; topics = [] }

-- The ids of the brokers that are alive, in order.
unfoldable pub alive_ids : List (ℕ × BrokerState) → List ℕ
alive_ids [] = []
alive_ids ((id, b) ∷ bs) = if b.alive then id ∷ alive_ids bs else alive_ids bs
