-- ===== src/Controller/Handle/IsState.antt =====
-- The invariant of the controller's state, operation by operation.
use Prim.Native.Nat.{compare}
use replog.Prelude.{
  ℕ, ◌≡◌, refl, Bool, true, false, Option, none, some, List, [], ◌∷◌, All, inl, inr, if◌then◌else◌,
  Bool-cases,
}
use replog.Prelude.Int.{ℤ, pos, negsuc}
use replog.Prelude.Maps.{insert, contains}
use replog.Prelude.Maps.Laws.{All-insert}
use replog.Controller.State.{BrokerState, PartitionState, State, alive_ids}
use replog.Controller.Elect.{elect_where_needed}
use replog.Controller.Elect.IsPartition.{IsI31, Leads, IsPartition}
use replog.Controller.Elect.AllParts.{
  AllParts, elect_where_needed-IsPartition, elect_where_needed-Leads,
}
use replog.Controller.Handle.{mutate, register_broker, broker_heartbeat, expire, sweep_liveness}
use replog.Controller.Handle.Brokers.{
  AllIds, contains-alive_ids-insert, expire-AllIds, expire-unchanged,
}

-- Broker ids that `as i32` keeps, and well-formed partitions.
abbrev pub IsState : State → Type 0
IsState state = AllIds state.brokers × AllParts IsPartition state.topics

-- The leader of every partition is alive, or there is none.
abbrev pub IsLed : State → Type 0
IsLed state = AllParts (λ p. Leads p.leader (alive_ids state.brokers)) state.topics

-- What every operation keeps.
abbrev pub IsSound : State → Type 0
IsSound state = IsState state × IsLed state

pub mutate-IsSound : (r : State × Bool) → IsSound r.0 → IsSound (mutate r)
unfolding mutate
mutate-IsSound (state, true) h = h
mutate-IsSound (state, false) h = h

elect_where_needed-IsSound : (state : State) → IsState state → IsSound (elect_where_needed state).0
unfolding elect_where_needed
elect_where_needed-IsSound state (ids, parts) =
    ((ids, elect_where_needed-IsPartition state parts), elect_where_needed-Leads state parts)

pub register_broker-IsSound :
    (state : State) (now broker_id : ℕ) (addr peer_addr : List ℕ)
    → IsI31 broker_id
    → IsState state
    → IsSound (register_broker state now broker_id addr peer_addr).0
unfolding register_broker
register_broker-IsSound state now broker_id addr peer_addr i (ids, parts) =
    elect_where_needed-IsSound _
      (All-insert compare (λ e. IsI31 e.0) state.brokers broker_id _ ids i, parts)

Leads-more :
    (l : ℤ) (xs ys : List ℕ)
    → ((n : ℕ) → contains xs n ≡ true → contains ys n ≡ true)
    → Leads l xs
    → Leads l ys
Leads-more (pos n) xs ys more h = more n h
Leads-more (negsuc n) xs ys more h = h

All-imp :
    {A : Type 0} (P Q : A → Type 0) → ((x : A) → P x → Q x) → (xs : List A) → All P xs → All Q xs
All-imp P Q f [] h = tt
All-imp P Q f (x ∷ xs) (h, hs) = (f x h, All-imp P Q f xs hs)

AllParts-imp :
    (P Q : PartitionState → Type 0)
    → ((p : PartitionState) → P p → Q p)
    → (ts : List (List ℕ × List PartitionState)) → AllParts P ts
    → AllParts Q ts
AllParts-imp P Q f ts h = All-imp (λ t. All P t.1) (λ t. All Q t.1) (λ t. All-imp P Q f t.1) ts h

pub broker_heartbeat-IsSound :
    (state : State) (now broker_id : ℕ) (found : Option BrokerState)
    → IsI31 broker_id
    → IsSound state
    → IsSound (broker_heartbeat state now broker_id found).0
unfolding broker_heartbeat
broker_heartbeat-IsSound state now broker_id none i h = h
broker_heartbeat-IsSound state now broker_id (some b) i ((ids, parts), led) =
    let b' : BrokerState = record b { alive = true; last_heartbeat = now } in
    let bs = insert compare state.brokers broker_id b' in
    let ids' = All-insert compare (λ e. IsI31 e.0) state.brokers broker_id b' ids i in
    elim (Bool-cases b.alive) [
      | inl a ↦ rw a (
        (ids', parts),
        AllParts-imp (λ p. Leads p.leader (alive_ids state.brokers))
            (λ p. Leads p.leader (alive_ids bs))
            (λ p.
              Leads-more p.leader _ _
                (λ n. contains-alive_ids-insert state.brokers broker_id b' n refl))
            state.topics led,
      )
      | inr a ↦ rw a (elect_where_needed-IsSound (record state { brokers = bs }) (ids', parts))
    ]

pub sweep_liveness-IsSound :
    (timeout : ℕ) (state : State) (now : ℕ)
    → IsSound state
    → IsSound (sweep_liveness timeout state now)
unfolding sweep_liveness
sweep_liveness-IsSound timeout state now ((ids, parts), led) =
    let expired = expire timeout now state.brokers in
    let state' : State = record state { brokers = expired.0 } in
    let ids' = expire-AllIds timeout now state.brokers ids in
    mutate-IsSound (if expired.1 then ((elect_where_needed state').0, true) else (state', false))
      (elim (Bool-cases expired.1) [
        | inl e ↦ rw e (elect_where_needed-IsSound state' (ids', parts))
        | inr e ↦ rw (e, expire-unchanged timeout now state.brokers e) ((ids, parts), led)
      ])
