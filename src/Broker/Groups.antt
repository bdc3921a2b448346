-- ===== src/Broker/Groups.antt =====
-- src/broker/groups.rs: the group coordinator. The maps of a group are lists of entries in order of
-- the member ids, so that the sort of the subscribed members has nothing left to do. `now` is the time
-- of `Instant::now()`, and a timeout is a number of the same unit.
pub mod Range
pub mod Assign
pub mod Fencing
use replog.Prelude.Decimal.{digits}
use replog.Prelude.{
  ℕ, zero, suc, ◌+◌, ◌-◌, ◌/◌, ◌%◌, Bool, true, false, not, ◌&&◌, ◌||◌, Option, none, some, List,
  [], ◌∷◌, ◌++◌, map, length, ltb, ◌==◌, if◌then◌else◌,
}
use replog.Prelude.Maps.{get, insert, compare_bytes, same}
use replog.Proto.Codes.{ErrorCode}
use Range.{Member, Slots, assign}

pub record Group : Type 0 where
  pub generation : ℕ
  pub members : List (List ℕ × Member)
  pub assignment : List (List ℕ × Slots)

-- `Group::default()`
unfoldable pub no_group : Group
no_group = record { generation = 0; members = []; assignment = [] }

-- `format!("m-{n}")`
unfoldable pub new_member_id : ℕ → List ℕ
new_member_id n = 109 ∷ 45 ∷ digits 20 n []

-- The coordinator: its groups, and the number of the next member.
pub record Coordinator : Type 0 where
  pub groups : List (List ℕ × Group)
  pub next_member : ℕ

-- member_id, generation, assignment
pub record JoinOutcome : Type 0 where
  pub member_id : List ℕ
  pub generation : ℕ
  pub assignment : Slots

unfoldable pub group_of : Option Group → Group
group_of none = no_group
group_of (some g) = g

unfoldable pub slots_of : Option Slots → Slots
slots_of none = []
slots_of (some slots) = slots

unfoldable pub is_known : Option Member → Bool
is_known none = false
is_known (some m) = true

unfoldable pub same_topics : List (List ℕ) → List (List ℕ) → Bool
same_topics [] [] = true
same_topics [] (u ∷ us) = false
same_topics (t ∷ ts) [] = false
same_topics (t ∷ ts) (u ∷ us) = same t u && same_topics ts us

-- A change of the members: the next generation, and the partitions shared out anew.
unfoldable pub rebalance : (List ℕ → Option ℕ) → Group → List (List ℕ × Member) → Group
rebalance partition_counts g members = record {
  generation = g.generation + 1;
  members = members;
  assignment = assign members partition_counts;
}

-- The members after a join, the id of the member, and whether anything changed.
unfoldable pub admit :
    ℕ
    → ℕ
    → Group
    → List ℕ
    → ℕ
    → List (List ℕ)
    → Option Member
    → List (List ℕ × Member) × List ℕ × Bool
admit now next_member g member_id session_timeout topics none =
    let id = new_member_id next_member in
    let m : Member = record {
      topics = topics;
      session_timeout = session_timeout;
      last_heartbeat = now;
    } in
    (insert compare_bytes g.members id m, id, true)
admit now next_member g member_id session_timeout topics (some old) =
    let m : Member = record {
      topics = topics;
      session_timeout = session_timeout;
      last_heartbeat = now;
    } in
    (insert compare_bytes g.members member_id m, member_id, not (same_topics old.topics topics))

-- The lookup of a member id; an empty id is nobody's.
unfoldable pub find_member : Group → List ℕ → Option Member
find_member g [] = none
find_member g (c ∷ cs) = get compare_bytes g.members (c ∷ cs)

unfoldable pub join :
    Coordinator
    → ℕ
    → (List ℕ → Option ℕ)
    → List ℕ
    → List ℕ
    → ℕ
    → List (List ℕ)
    → Coordinator × JoinOutcome
join c now partition_counts group member_id session_timeout topics =
    let g = group_of (get compare_bytes c.groups group) in
    let found = find_member g member_id in
    let admitted = admit now c.next_member g member_id session_timeout topics found in
    let g' =
      if admitted.2
      then rebalance partition_counts g admitted.0
      else record g { members = admitted.0 } in
    (
      record {
        groups = insert compare_bytes c.groups group g';
        next_member = if is_known found then c.next_member else c.next_member + 1;
      },
      record {
        member_id = admitted.1;
        generation = g'.generation;
        assignment = slots_of (get compare_bytes g'.assignment admitted.1);
      },
    )

-- `heartbeat`, `leave` and `check_commit` on the lookups of the group and of the member.
unfoldable pub heartbeat : Coordinator → ℕ → List ℕ → List ℕ → ℕ → Coordinator × ErrorCode
heartbeat c now group member_id generation = elim (get compare_bytes c.groups group) [
  | none ↦ (c, ErrorCode.unknown_member)
  | some g ↦ elim (get compare_bytes g.members member_id) [
    | none ↦ (c, ErrorCode.unknown_member)
    | some m ↦
        let g' : Group = record g {
          members = insert compare_bytes g.members member_id (record m { last_heartbeat = now });
        } in
        (
          record c { groups = insert compare_bytes c.groups group g' },
          if generation == g.generation then ErrorCode.none else ErrorCode.stale_generation,
        )
  ]
]

unfoldable pub check_commit : Coordinator → List ℕ → List ℕ → ℕ → ErrorCode
check_commit c group [] generation = ErrorCode.none
check_commit c group (x ∷ xs) generation = elim (get compare_bytes c.groups group) [
  | none ↦ ErrorCode.unknown_member
  | some g ↦ elim (get compare_bytes g.members (x ∷ xs)) [
    | none ↦ ErrorCode.unknown_member
    | some m ↦ if generation == g.generation then ErrorCode.none else ErrorCode.stale_generation
  ]
]

unfoldable pub remove : List (List ℕ × Member) → List ℕ → List (List ℕ × Member)
remove [] id = []
remove ((k, m) ∷ ms) id = let rest = remove ms id in if same k id then ms else (k, m) ∷ rest

unfoldable pub leave : Coordinator → (List ℕ → Option ℕ) → List ℕ → List ℕ → Coordinator × ErrorCode
leave c partition_counts group member_id = elim (get compare_bytes c.groups group) [
  | none ↦ (c, ErrorCode.unknown_member)
  | some g ↦ elim (get compare_bytes g.members member_id) [
    | none ↦ (c, ErrorCode.unknown_member)
    | some m ↦ (
      record c {
        groups =
            insert compare_bytes c.groups group
              (rebalance partition_counts g (remove g.members member_id));
      },
      ErrorCode.none,
    )
  ]
]

-- The members whose last heartbeat is not longer ago than their timeout, and how many others.
unfoldable pub evict : ℕ → List (List ℕ × Member) → List (List ℕ × Member) × ℕ
evict now [] = ([], 0)
evict now ((id, m) ∷ ms) =
    let rest = evict now ms in
    if ltb m.session_timeout (now - m.last_heartbeat)
    then (rest.0, rest.1 + 1)
    else ((id, m) ∷ rest.0, rest.1)

unfoldable pub expire_group : (List ℕ → Option ℕ) → ℕ → Group → Group × ℕ
expire_group partition_counts now g =
    let kept = evict now g.members in
    if kept.1 == 0 then (g, 0) else (rebalance partition_counts g kept.0, kept.1)

unfoldable pub expire_groups :
    (List ℕ → Option ℕ) → ℕ → List (List ℕ × Group) → List (List ℕ × Group) × ℕ
expire_groups partition_counts now [] = ([], 0)
expire_groups partition_counts now ((name, g) ∷ gs) =
    let rest = expire_groups partition_counts now gs in
    let expired = expire_group partition_counts now g in
    ((name, expired.0) ∷ rest.0, expired.1 + rest.1)

-- `expire`, with the number of the members that it evicted.
unfoldable pub expire : Coordinator → ℕ → (List ℕ → Option ℕ) → Coordinator × ℕ
expire c now partition_counts =
    let expired = expire_groups partition_counts now c.groups in
    (record c { groups = expired.0 }, expired.1)
