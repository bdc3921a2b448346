-- ===== src/Broker/Isr.antt =====
-- src/broker/mod.rs: `isr_maintenance`, the leader's proposals for the ISR.
use Prim.Native.Nat.{compare}
use replog.Prelude.{
  ℕ, ◌+◌, ◌-◌, Bool, true, false, not, ◌&&◌, Option, none, some, List, [], ◌∷◌, leb, ◌==◌,
  if◌then◌else◌,
}
use replog.Prelude.Maps.{get, same}
use replog.Prelude.Sort.{sort}
use replog.Proto.Codes.{ErrorCode, is_none}
use replog.Broker.Replica.{Pending, ReplState, Replica, advance_hwm}
pub mod Proposal
mod Tests

-- When the follower was last caught up.
unfoldable pub last_caught_up : ReplState → ℕ → ℕ
last_caught_up st follower = elim (get compare st.match_offsets follower) [
  | none ↦ st.leader_since
  | some m ↦ m.1
]

-- `now.duration_since(last_caught_up) <= lag`
unfoldable pub in_sync : ReplState → ℕ → ℕ → ℕ → Bool
in_sync st lag now follower = leb (now - last_caught_up st follower) lag

-- The followers that are pushed onto `desired`.
unfoldable pub followers : ReplState → ℕ → ℕ → ℕ → List ℕ → List ℕ
unfolding in_sync
followers st self_id lag now [] = []
followers st self_id lag now (id ∷ ids) =
    let rest = followers st self_id lag now ids in
    if not (id == self_id) && in_sync st lag now id then id ∷ rest else rest

unfoldable pub desired_isr : ReplState → ℕ → ℕ → ℕ → List ℕ
unfolding sort
desired_isr st self_id lag now = sort (self_id ∷ followers st self_id lag now st.replicas)

-- `proposal`: the epoch and the ISR that the controller is asked for.
unfoldable pub proposal : ReplState → ℕ → ℕ → ℕ → Option (ℕ × List ℕ)
unfolding sort
proposal st self_id lag now =
    let desired = desired_isr st self_id lag now in
    if not st.is_leader
    then none
    else if same desired (sort st.isr)
    then none
    else some (st.epoch, desired)

-- The block under the lock for an answer without an error.
unfoldable pub adopt : ReplState → ℕ → List ℕ → ReplState
adopt st epoch desired =
    if st.is_leader && st.epoch == epoch then record st { isr = desired } else st

-- The arms for an answer of the controller: the replica, and the parked produces answered with Ok.
unfoldable pub settle : Replica → ℕ → ℕ → ℕ → List ℕ → ErrorCode → Replica × List Pending
unfolding adopt
settle r self_id log_end epoch desired error =
    if is_none error
    then advance_hwm (record r { state = adopt r.state epoch desired }) self_id log_end
    else (r, [])
