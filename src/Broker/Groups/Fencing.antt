-- ===== src/Broker/Groups/Fencing.antt =====
-- A member that missed a rebalance cannot commit.
use replog.Prelude.{
  ℕ, ◌<◌, ◌≤◌, ◌≡◌, refl, true, false, Option, none, some, List, ◌∷◌, arith, ◌==◌, inl, inr,
  Option-cases,
}
use replog.Prelude.Maps.{get, insert, compare_bytes}
use replog.Prelude.Maps.GetInsert.{compare_bytes-IsKey, get-insert_same}
use replog.Proto.Codes.{is_none}
use replog.Broker.Groups.{
  Group, Coordinator, group_of, find_member, admit, join, rebalance, leave, check_commit,
}

-- A commit under a generation that is not the group's is refused.
check_commit-refused :
    (groups : List (List ℕ × Group)) (next_member : ℕ) (group : List ℕ) (g : Group) (x : ℕ)
    (xs : List ℕ) (generation : ℕ)
    → generation < g.generation
    → is_none (
        check_commit
          (record { groups = insert compare_bytes groups group g; next_member = next_member })
          group
          (x ∷ xs)
          generation)
      ≡ false
unfolding check_commit
check_commit-refused groups next_member group g x xs generation l =
    let other : (generation == g.generation) ≡ false = ground (arith, l) in
    elim (Option-cases (get compare_bytes g.members (x ∷ xs))) [
      | inl e ↦
          rw (check_commit, get-insert_same compare_bytes compare_bytes-IsKey groups group g, e)
            refl
      | inr (m, e) ↦
          rw
            (
              check_commit,
              get-insert_same compare_bytes compare_bytes-IsKey groups group g,
              e,
              other,
            )
            refl
    ]

-- After a new member has joined a group, a fenced commit with a generation of the group up to then
-- is refused.
pub join-check_commit :
    (c : Coordinator) (now : ℕ) (partition_counts : List ℕ → Option ℕ) (group member_id : List ℕ)
    (session_timeout : ℕ) (topics : List (List ℕ)) (x : ℕ) (xs : List ℕ) (generation : ℕ)
    → find_member (group_of (get compare_bytes c.groups group)) member_id ≡ none
    → generation ≤ (group_of (get compare_bytes c.groups group)).generation
    → is_none (
        check_commit
          (join c now partition_counts group member_id session_timeout topics).0
          group
          (x ∷ xs)
          generation)
      ≡ false
unfolding join admit rebalance
join-check_commit c now partition_counts group member_id session_timeout topics x xs generation new
      l =
    rw (join, new) (check_commit-refused c.groups _ group _ x xs generation (omega (arith, l)))

-- After a member has left a group, a fenced commit with a generation of the group up to then, by that
-- member or another, is refused.
pub leave-check_commit :
    (c : Coordinator) (partition_counts : List ℕ → Option ℕ) (group member_id : List ℕ) (g : Group)
    (x : ℕ) (xs : List ℕ) (generation : ℕ)
    → get compare_bytes c.groups group ≡ some g
    → is_none (leave c partition_counts group member_id).1 ≡ true
    → generation ≤ g.generation
    → is_none (check_commit (leave c partition_counts group member_id).0 group (x ∷ xs) generation)
      ≡ false
unfolding leave rebalance
leave-check_commit c partition_counts group member_id g x xs generation found left l =
    elim (Option-cases (get compare_bytes g.members member_id)) [
      | inl e ↦ (let bad : false ≡ true = rw (leave, found, e) at left in ground (arith, bad))
      | inr (m, e) ↦
          rw (leave, found, e)
            (check_commit-refused c.groups _ group _ x xs generation (omega (arith, l)))
    ]
