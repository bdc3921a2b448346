-- ===== src/Broker/Roles/Tests.antt =====
-- A broker that loses the lead of a partition, and the theorems at it.
use replog.Broker.Fetcher.Claims.{update-IsLapsed}
use replog.Broker.Fetcher.{is_current}
use replog.Prelude.{◌≤◌, ◌≡◌, refl, true, false, some, [], ◌∷◌}
use replog.Prelude.Int.{pos}
use replog.Proto.Meta.{PartitionMeta, ClusterMeta}
use replog.Broker.Replica.{Replica, advance_hwm, advance_leader, lowest}
use replog.Broker.Roles.{
  leads, same_int, update, apply_partition, find_addr, fetcher_of, unchanged, same_role,
  is_some_leader, become_follower, keep_role, advanced, Outcome,
}
use replog.Broker.Roles.Agrees.{Agrees, apply_partition-Agrees}

abbrev leading : Replica
leading = record {
  state = record {
    epoch = 1;
    is_leader = true;
    isr = 1 ∷ 2 ∷ [];
    replicas = 1 ∷ 2 ∷ [];
    match_offsets = (2, (5, 0)) ∷ [];
    pending_all = (record { last_offset = 6; base = 5; count = 2; reply = 3 }) ∷ [];
    fetcher_generation = 4;
    fetcher_alive = false;
    leader_since = 0;
  };
  hwm = 5;
}

-- Broker 2 leads in the second epoch.
abbrev news : PartitionMeta
news = record {
  partition = 0;
  leader = pos 2;
  leader_epoch = 2;
  replicas = 1 ∷ 2 ∷ [];
  isr = 2 ∷ [];
}

abbrev cluster : ClusterMeta
cluster = record { version = 7; brokers = []; peers = (2, 9 ∷ []) ∷ []; topics = [] }

demoted_fetches : (apply_partition 1 10 7 cluster news leading).fetcher ≡ some (2, (5, 9 ∷ []))
unfolding apply_partition update unchanged same_role leads same_int become_follower fetcher_of
    find_addr is_some_leader
demoted_fetches = refl

apply_partition-Agrees_example :
    let o = apply_partition 1 10 7 cluster news leading in
    Agrees 1 news o.replica.state
    × (5 ≤ o.replica.hwm)
    × (true ≡ true
        → leads 1 news ≡ false
        → (o.replica.state.pending_all ≡ []) × (o.failed ≡ leading.state.pending_all))
apply_partition-Agrees_example = apply_partition-Agrees 1 10 7 cluster news leading

-- Broker 1 stays the leader, with broker 2 as follower; the log has grown to 9 by the second time.
abbrev no_news : PartitionMeta
no_news = record {
  partition = 0;
  leader = pos 1;
  leader_epoch = 1;
  replicas = 1 ∷ 2 ∷ [];
  isr = 1 ∷ [];
}

abbrev once : Outcome
once = apply_partition 1 10 6 cluster no_news leading

once_marks : once.replica.hwm ≡ 6
unfolding apply_partition update unchanged same_role leads same_int keep_role advanced advance_hwm
    advance_leader lowest
once_marks = refl

leading_moves : (update 1 10 news leading.state).transition ≡ true
unfolding update unchanged same_role leads same_int become_follower
leading_moves = refl

update-IsLapsed_example : is_current (update 1 10 news leading.state).state 4 ≡ false
update-IsLapsed_example = update-IsLapsed 1 10 news leading.state leading_moves
