-- ===== src/Broker/Groups/Range.antt =====
-- `assign` of src/broker/groups.rs: the partitions of the topics, shared out over the members.
use replog.Prelude.{
  ℕ, zero, suc, ◌+◌, ◌/◌, ◌%◌, Bool, true, false, Option, none, some, List, [], ◌∷◌, ◌++◌, map,
  length, ltb, if◌then◌else◌,
}
use replog.Prelude.Maps.{insert, compare_bytes, same}

pub record Member : Type 0 where
  pub topics : List (List ℕ)
  pub session_timeout : ℕ
  pub last_heartbeat : ℕ

abbrev pub Slots : Type 0
Slots = List (List ℕ × ℕ)

unfoldable pub subscribes : List ℕ → List (List ℕ) → Bool
subscribes topic [] = false
subscribes topic (t ∷ ts) = if same t topic then true else subscribes topic ts

-- The ids of the members that subscribe to the topic, in order.
unfoldable pub subscribed : List ℕ → List (List ℕ × Member) → List (List ℕ)
subscribed topic [] = []
subscribed topic ((id, m) ∷ ms) =
    let rest = subscribed topic ms in if subscribes topic m.topics then id ∷ rest else rest

-- `for p in next..next + take { slots.push((topic, p)) }`
unfoldable pub slots_from : List ℕ → ℕ → ℕ → Slots
slots_from topic next zero = []
slots_from topic next (suc take) = (topic, next) ∷ slots_from topic (next + 1) take

-- The loop over the subscribed members from the `i`-th on: what is pushed for each of them.
unfoldable pub share : List ℕ → ℕ → ℕ → ℕ → ℕ → List (List ℕ) → List (List ℕ × Slots)
unfolding slots_from
share topic per extra i next [] = []
share topic per extra i next (member ∷ members) =
    let take = per + (if ltb i extra then 1 else 0) in
    (member, slots_from topic next take) ∷ share topic per extra (i + 1) (next + take) members

-- The partitions of one topic, over the members that subscribe to it.
unfoldable pub assign_topic : List ℕ → ℕ → List (List ℕ) → List (List ℕ × Slots)
assign_topic topic partitions [] = []
assign_topic topic partitions (member ∷ members) =
    let n = length (member ∷ members) in
    share topic (partitions / n) (partitions % n) 0 0 (member ∷ members)

-- `out.get_mut(member).unwrap()`, with the slots pushed; a member that is absent does not occur.
unfoldable pub push_slots : List (List ℕ × Slots) → List ℕ → Slots → List (List ℕ × Slots)
push_slots [] member slots = []
push_slots ((id, old) ∷ out) member slots =
    let rest = push_slots out member slots in
    if same id member then (id, old ++ slots) ∷ out else (id, old) ∷ rest

unfoldable pub push_all : List (List ℕ × Slots) → List (List ℕ × Slots) → List (List ℕ × Slots)
push_all out [] = out
push_all out ((member, slots) ∷ given) = push_all (push_slots out member slots) given

-- The topics of the members, each put in its place in the order and kept once: `sort` and `dedup`.
unfoldable pub add_topics : List (List ℕ × Unit {0}) → List (List ℕ) → List (List ℕ × Unit {0})
add_topics topics [] = topics
add_topics topics (t ∷ ts) = add_topics (insert compare_bytes topics t tt) ts

unfoldable pub all_topics :
    List (List ℕ × Unit {0}) → List (List ℕ × Member) → List (List ℕ × Unit {0})
all_topics topics [] = topics
all_topics topics ((id, m) ∷ ms) = all_topics (add_topics topics m.topics) ms

-- What is pushed for a topic, nothing where its partitions are not known.
unfoldable pub assign_counted : List ℕ → Option ℕ → List (List ℕ) → List (List ℕ × Slots)
assign_counted topic none members = []
assign_counted topic (some partitions) members = assign_topic topic partitions members

unfoldable pub assign_topics :
    List (List ℕ × Member)
    → (List ℕ → Option ℕ)
    → List (List ℕ × Slots)
    → List (List ℕ × Unit {0})
    → List (List ℕ × Slots)
assign_topics members partition_counts out [] = out
assign_topics members partition_counts out ((topic, u) ∷ topics) =
    let pushed = assign_counted topic (partition_counts topic) (subscribed topic members) in
    assign_topics members partition_counts (push_all out pushed) topics

unfoldable pub assign : List (List ℕ × Member) → (List ℕ → Option ℕ) → List (List ℕ × Slots)
assign members partition_counts =
    assign_topics members partition_counts (map (λ e. (e.0, [])) members) (all_topics [] members)
