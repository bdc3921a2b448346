-- ===== src/Broker/Tests.antt =====
-- Runs of the broker's state on concrete data, and its theorems at them.
use replog.Prelude.{ℕ, ◌<◌, ◌≤◌, ◌≡◌, ◌⊎◌, refl, true, false, some, List, [], ◌∷◌, All, arith}
use replog.Proto.Utf8.{is_utf8}
use replog.Broker.Replica.{Pending, Replica, advance_hwm}
use replog.Broker.Replica.HighWater.{
  Interleaves, IsMatched, advance_hwm-IsMatched, advance_hwm-covered,
}
use replog.Prelude.{Option}
use replog.Prelude.Decimal.{digits}
use replog.Prelude.Maps.{get, compare_bytes}
use replog.Proto.Codes.{is_none}
use replog.Broker.Groups.{
  Group, Coordinator, group_of, find_member, admit, rebalance, no_group, new_member_id, join, leave,
  check_commit,
}
use replog.Broker.Groups.Range.{assign_topic, share, slots_from}
use replog.Broker.Groups.Assign.{given, given-assign_topic}
use replog.Broker.Groups.Fencing.{join-check_commit, leave-check_commit}
use replog.Broker.Offsets.{commit, open_store, OffsetsStore}
use replog.Broker.Offsets.Replay.{IsCommit, open_store-commit}

-- A leader with two followers that have fetched up to 5 and 8, and two parked produces.
abbrev leading : Replica
leading = record {
  state = record {
    epoch = 1;
    is_leader = true;
    isr = 1 ∷ 2 ∷ 3 ∷ [];
    replicas = 1 ∷ 2 ∷ 3 ∷ [];
    match_offsets = (2, (5, 0)) ∷ (3, (8, 0)) ∷ [];
    pending_all =
        record { last_offset = 4; base = 3; count = 2; reply = 0 }
        ∷ record { last_offset = 6; base = 5; count = 2; reply = 1 }
        ∷ [];
    fetcher_generation = 0;
    fetcher_alive = false;
    leader_since = 0;
  };
  hwm = 2;
}

abbrev advanced : Replica × List Pending
advanced = advance_hwm leading 1 9

advance_hwm-IsMatched_example :
    (advanced.0.hwm ≡ 2)
    ⊎ ((2 < advanced.0.hwm)
        × (advanced.0.hwm ≤ 9)
        × All (IsMatched leading.state 1 advanced.0.hwm) leading.state.isr)
advance_hwm-IsMatched_example = advance_hwm-IsMatched leading 1 9

advance_hwm-covered_example :
    All (λ e. e.last_offset < advanced.0.hwm) advanced.1
    × All (λ e. advanced.0.hwm ≤ e.last_offset) advanced.0.state.pending_all
    × Interleaves advanced.1 advanced.0.state.pending_all leading.state.pending_all
advance_hwm-covered_example = advance_hwm-covered leading 1 9 refl

committed-IsCommit : IsCommit (103 ∷ []) (116 ∷ []) 2 77
unfolding is_utf8
committed-IsCommit = record {
  named = (record { fits = omega arith; utf8 = refl }, record { fits = omega arith; utf8 = refl });
  numbers = (omega arith, omega arith);
}

abbrev store : OffsetsStore
store = commit (open_store []) (103 ∷ []) (116 ∷ []) 2 77

open_store-commit_example : open_store store.log ≡ store
open_store-commit_example = open_store-commit [] (103 ∷ []) (116 ∷ []) 2 77 committed-IsCommit

-- Three members share five partitions, two each for the first two of them.
five_shared : assign_topic (116 ∷ []) 5 ((97 ∷ []) ∷ (98 ∷ []) ∷ (99 ∷ []) ∷ []) ≡ (
    (97 ∷ [], (116 ∷ [], 0) ∷ (116 ∷ [], 1) ∷ [])
    ∷ (98 ∷ [], (116 ∷ [], 2) ∷ (116 ∷ [], 3) ∷ [])
    ∷ (99 ∷ [], (116 ∷ [], 4) ∷ [])
    ∷ [])
unfolding assign_topic share slots_from
five_shared = refl

given-assign_topic_example :
    given (assign_topic (116 ∷ []) 5 ((97 ∷ []) ∷ (98 ∷ []) ∷ [])) ≡ slots_from (116 ∷ []) 0 5
given-assign_topic_example = given-assign_topic (116 ∷ []) 5 (97 ∷ []) ((98 ∷ []) ∷ [])

abbrev counts : List ℕ → Option ℕ
counts topic = some 5

-- One member, m-1, has joined group g.
abbrev one_member : Coordinator
one_member =
    (join (record { groups = []; next_member = 1 }) 0 counts (103 ∷ []) [] 1000 ((116 ∷ []) ∷ [])).0

join-check_commit_example :
    is_none (
      check_commit
        (join one_member 5 counts (103 ∷ []) [] 1000 ((116 ∷ []) ∷ [])).0
        (103 ∷ [])
        (109 ∷ 45 ∷ 49 ∷ [])
        1)
    ≡ false
unfolding join group_of find_member admit rebalance no_group
join-check_commit_example =
    join-check_commit one_member 5 counts (103 ∷ []) [] 1000 ((116 ∷ []) ∷ []) 109 (45 ∷ 49 ∷ []) 1
      refl (omega arith)

abbrev left_group : Group
left_group = group_of (get compare_bytes one_member.groups (103 ∷ []))

leave-check_commit_example :
    is_none (
      check_commit
        (leave one_member counts (103 ∷ []) (109 ∷ 45 ∷ 49 ∷ [])).0
        (103 ∷ [])
        (109 ∷ 45 ∷ 49 ∷ [])
        1)
    ≡ false
unfolding join group_of find_member admit rebalance no_group leave new_member_id digits
leave-check_commit_example =
    leave-check_commit one_member counts (103 ∷ []) (109 ∷ 45 ∷ 49 ∷ []) left_group 109
      (45 ∷ 49 ∷ []) 1 refl refl (omega arith)
