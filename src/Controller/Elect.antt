-- ===== src/Controller/Elect.antt =====
-- `elect_where_needed` of src/controller/mod.rs. The flags say whether anything changed.
pub mod AllParts
pub mod IsPartition
use replog.Prelude.{
  ℕ, zero, suc, ◌+◌, ◌%◌, ◌^◌, Bool, true, false, ◌||◌, Option, none, some, List, [], ◌∷◌,
  if◌then◌else◌,
}
use replog.Prelude.Int.{ℤ, pos, negsuc}
use replog.Prelude.Maps.{contains, retain, find_in}
use replog.Proto.Wire.{as_i32}
use replog.Controller.State.{BrokerState, PartitionState, State, alive_ids}

-- `p.leader >= 0 && alive.contains(&(p.leader as u32))`
unfoldable pub leader_alive : List ℕ → ℤ → Bool
leader_alive alive (pos n) = contains alive n
leader_alive alive (negsuc n) = false

-- The arm without a candidate: no unclean election.
unfoldable pub take_offline : PartitionState → ℤ → PartitionState × Bool
take_offline p (negsuc zero) = (p, false)
take_offline p (negsuc (suc n)) = (record p { leader = negsuc 0 }, true)
take_offline p (pos n) = (record p { leader = negsuc 0 }, true)

unfoldable pub elect : List ℕ → PartitionState → PartitionState × Bool
unfolding take_offline leader_alive
elect alive p = if leader_alive alive p.leader then (p, false) else elim (find_in alive p.isr) [
  | some new_leader ↦ (
    record p {
      leader = as_i32 new_leader;
      leader_epoch = (p.leader_epoch + 1) % 2 ^ 64;
      isr = retain alive p.isr;
    },
    true,
  )
  | none ↦ take_offline p p.leader
]

unfoldable pub elect_parts : List ℕ → List PartitionState → List PartitionState × Bool
elect_parts alive [] = ([], false)
elect_parts alive (p ∷ ps) =
    ((elect alive p).0 ∷ (elect_parts alive ps).0, (elect alive p).1 || (elect_parts alive ps).1)

unfoldable pub elect_topics :
    List ℕ → List (List ℕ × List PartitionState) → List (List ℕ × List PartitionState) × Bool
elect_topics alive [] = ([], false)
elect_topics alive ((name, ps) ∷ ts) = (
  (name, (elect_parts alive ps).0) ∷ (elect_topics alive ts).0,
  (elect_parts alive ps).1 || (elect_topics alive ts).1,
)

unfoldable pub elect_where_needed : State → State × Bool
elect_where_needed state =
    let elected = elect_topics (alive_ids state.brokers) state.topics in
    (record state { topics = elected.0 }, elected.1)
