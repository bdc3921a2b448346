-- ===== src/Broker/Replica.antt =====
-- The leader's side of src/broker/cluster.rs: the high-water mark and the parked acks=all produces.
-- `hwm` is the value of the watch channel, `next_offset` of the log is an argument, and a reply
-- channel is its number.
pub mod HighWater
use Prim.Native.Nat.{compare}
use replog.Prelude.{
  ℕ, min, max, Bool, true, false, Option, none, some, List, [], ◌∷◌, ltb, ◌==◌, if◌then◌else◌,
}
use replog.Prelude.Maps.{get}

-- A parked produce, with the number of its reply channel.
pub record Pending : Type 0 where
  pub last_offset : ℕ
  pub base : ℕ
  pub count : ℕ
  pub reply : ℕ

pub record ReplState : Type 0 where
  pub epoch : ℕ
  pub is_leader : Bool
  pub isr : List ℕ
  pub replicas : List ℕ
  -- by follower: the offset it asked for, and when it was last caught up
  pub match_offsets : List (ℕ × (ℕ × ℕ))
  pub pending_all : List Pending
  pub fetcher_generation : ℕ
  pub fetcher_alive : Bool
  pub leader_since : ℕ

pub record Replica : Type 0 where
  pub state : ReplState
  pub hwm : ℕ

-- `match_offsets.get(follower).map(|&(offset, _)| offset).unwrap_or(0)`
unfoldable pub matched_of : ReplState → ℕ → ℕ
matched_of state follower = elim (get compare state.match_offsets follower) [
  | none ↦ 0
  | some m ↦ m.0
]

-- The loop over the ISR members other than `self_id`.
unfoldable pub lowest : ReplState → ℕ → ℕ → List ℕ → ℕ
lowest state self_id hwm [] = hwm
lowest state self_id hwm (follower ∷ isr) =
    lowest state self_id (if follower == self_id then hwm else min hwm (matched_of state follower))
      isr

-- The entries that `hwm` covers, and the others.
unfoldable pub split_pending : ℕ → List Pending → List Pending × List Pending
split_pending hwm [] = ([], [])
split_pending hwm (e ∷ es) =
    let rest = split_pending hwm es in
    if ltb e.last_offset hwm then (e ∷ rest.0, rest.1) else (rest.0, e ∷ rest.1)

-- `drain_pending`: the entries whose replies are ready, and the state.
unfoldable pub drain_pending : ReplState → ℕ → List Pending × ReplState
drain_pending state hwm =
    let parts = split_pending hwm state.pending_all in
    (parts.0, record state { pending_all = parts.1 })

-- `advance_hwm` on a leader whose log ends at `log_end`; the entries are answered with
-- Ok((base, count)).
unfoldable pub advance_leader : Replica → ℕ → ℕ → Replica × List Pending
advance_leader replica self_id log_end =
    let hwm = lowest replica.state self_id log_end replica.state.isr in
    let current = replica.hwm in
    let drained = drain_pending replica.state (max hwm current) in
    (record { state = drained.1; hwm = if ltb current hwm then hwm else current }, drained.0)

unfoldable pub advance_hwm : Replica → ℕ → ℕ → Replica × List Pending
advance_hwm replica self_id log_end =
    if replica.state.is_leader then advance_leader replica self_id log_end else (replica, [])
