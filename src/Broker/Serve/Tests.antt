-- ===== src/Broker/Serve/Tests.antt =====
-- A run of a leader on concrete data, and the theorem at it.
use replog.Prelude.Int.{pos}
use replog.Proto.Meta.{PartitionMeta, ClusterMeta}
use replog.Broker.Roles.{
  apply_partition, update, unchanged, same_role, leads, same_int, become_leader, advanced,
}
use replog.Prelude.{◌<◌, ◌≤◌, ◌≡◌, refl, true, false, List, [], ◌∷◌, ◌++◌, All}
use replog.Broker.Replica.{
  Pending, Replica, advance_hwm, advance_leader, lowest, matched_of, drain_pending, split_pending,
}
use replog.Broker.Serve.{park, replica_fetch, accept, caught_up}
use replog.Broker.Serve.Marks.{parked, fetched, Run, done, next, Run-covered}

abbrev leading : Replica
leading = record {
  state = record {
    epoch = 1;
    is_leader = true;
    isr = 1 ∷ 2 ∷ [];
    replicas = 1 ∷ 2 ∷ [];
    match_offsets = [];
    pending_all = [];
    fetcher_generation = 0;
    fetcher_alive = false;
    leader_since = 0;
  };
  hwm = 0;
}

-- Two records are appended and parked; then the follower asks for what is behind them.
abbrev waiting : Replica × List Pending
waiting = park leading 1 2 0 2 7

abbrev caught : Replica × List Pending
caught = (replica_fetch waiting.0 1 2 1 2 2 30).0

caught_answers : caught.1 ≡ (record { last_offset = 1; base = 0; count = 2; reply = 7 }) ∷ []
unfolding park advance_hwm advance_leader lowest matched_of drain_pending split_pending
    replica_fetch accept caught_up
caught_answers = refl

leading-Run : Run 1 leading caught.0 (waiting.1 ++ (caught.1 ++ []))
leading-Run =
    next leading caught.0 waiting (caught.1 ++ []) (parked leading 2 0 2 7)
      (next waiting.0 caught.0 caught [] (fetched waiting.0 2 1 2 2 30) (done caught.0))

Run-covered_example :
    (0 ≤ caught.0.hwm) × All (λ e. e.last_offset < caught.0.hwm) (waiting.1 ++ (caught.1 ++ []))
Run-covered_example = Run-covered 1 leading caught.0 (waiting.1 ++ (caught.1 ++ [])) leading-Run

-- The broker has lost the lead when the task of a produce parks it, and is elected again.
abbrev follower : Replica
follower = record leading { state = record leading.state { is_leader = false; epoch = 2 } }

abbrev elected : PartitionMeta
elected = record {
  partition = 0;
  leader = pos 1;
  leader_epoch = 3;
  replicas = 1 ∷ 2 ∷ [];
  isr = 1 ∷ [];
}

abbrev cluster : ClusterMeta
cluster = record { version = 9; brokers = []; peers = []; topics = [] }

-- The new leader's first advance answers the produce with Ok, whatever became of its records.
stale_answers :
    (apply_partition 1 50 2 cluster elected (park follower 1 2 0 2 7).0).answered
    ≡ (record { last_offset = 1; base = 0; count = 2; reply = 7 }) ∷ []
unfolding park advance_hwm advance_leader lowest matched_of drain_pending split_pending
    apply_partition update unchanged same_role leads same_int become_leader advanced
stale_answers = refl
