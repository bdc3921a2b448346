-- ===== src/Controller/Elect/AllParts.antt =====
-- What holds of every partition after an election.
use replog.Prelude.{ℕ, ◌≡◌, refl, true, List, [], ◌∷◌, All, inl, inr, arith}
use replog.Prelude.Int.{ℤ, pos, negsuc}
use replog.Prelude.Maps.Laws.{All-contains, contains_all-contains, contains-find_in}
use replog.Controller.State.{PartitionState, State, alive_ids}
use replog.Controller.Elect.{leader_alive, elect, elect_parts, elect_topics, elect_where_needed}
use replog.Controller.Elect.IsPartition.{
  IsI31, Leads, IsPartition, as_i32-pos, elect-cases, elect-IsPartition, take_offline-leader,
}

abbrev pub AllParts : (PartitionState → Type 0) → List (List ℕ × List PartitionState) → Type 0
AllParts P ts = All (λ t. All P t.1) ts

module _ (alive : List ℕ) (P Q : PartitionState → Type 0)
    (keep : (p : PartitionState) → P p → Q (elect alive p).0) where
  All-elect_parts : (ps : List PartitionState) → All P ps → All Q (elect_parts alive ps).0
  unfolding elect_parts
  All-elect_parts [] h = tt
  All-elect_parts (p ∷ ps) (h, hs) = (keep p h, All-elect_parts ps hs)

  pub AllParts-elect_topics :
      (ts : List (List ℕ × List PartitionState))
      → AllParts P ts
      → AllParts Q (elect_topics alive ts).0
  unfolding elect_topics
  AllParts-elect_topics [] h = tt
  AllParts-elect_topics ((name, ps) ∷ ts) (h, hs) =
      (All-elect_parts ps h, AllParts-elect_topics ts hs)

leader_alive-Leads : (alive : List ℕ) (l : ℤ) → leader_alive alive l ≡ true → Leads l alive
unfolding leader_alive
leader_alive-Leads alive (pos n) h = h
leader_alive-Leads alive (negsuc n) h = ground arith

-- After an election a leader is alive, or there is none.
elect-Leads_alive :
    (alive : List ℕ) (p : PartitionState) → IsPartition p → Leads (elect alive p).0.leader alive
elect-Leads_alive alive p h = elim (elect-cases alive p) [
  | inl (e, a) ↦ rw e (leader_alive-Leads alive p.leader a)
  | inr (inl (n, f, e)) ↦
      let c = contains-find_in alive p.isr n f in
      let small : IsI31 n =
        All-contains IsI31 p.replicas n h.ids
          (contains_all-contains p.replicas p.isr n h.isr_replicas c.0) in
      rw (e, as_i32-pos n small) (c.1)
  | inr (inr (f, e)) ↦ rw (e, take_offline-leader p p.leader refl) refl
]

pub elect_where_needed-IsPartition :
    (state : State)
    → AllParts IsPartition state.topics
    → AllParts IsPartition (elect_where_needed state).0.topics
unfolding elect_where_needed
elect_where_needed-IsPartition state h =
    let alive = alive_ids state.brokers in
    AllParts-elect_topics alive IsPartition IsPartition (elect-IsPartition alive) state.topics h

-- After an election every partition of a well-formed state has a leader that is alive, or none.
pub elect_where_needed-Leads :
    (state : State)
    → AllParts IsPartition state.topics
    → AllParts (λ p. Leads p.leader (alive_ids state.brokers)) (elect_where_needed state).0.topics
unfolding elect_where_needed
elect_where_needed-Leads state h =
    let alive = alive_ids state.brokers in
    AllParts-elect_topics alive IsPartition (λ p. Leads p.leader alive) (elect-Leads_alive alive)
      state.topics h
