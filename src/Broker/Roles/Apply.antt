-- ===== src/Broker/Roles/Apply.antt =====
-- src/broker/mod.rs: `apply_metadata` on the replicas of a broker. A replica's key is its topic and its
-- partition; `log_end` is the end of each log, `opens` whether `partition::spawn` succeeds.
use Prim.Native.Nat.{compare, Ordering}
use replog.Prelude.{ℕ, Bool, false, Option, none, some, List, [], ◌∷◌, ◌++◌, if◌then◌else◌}
use replog.Prelude.Maps.{get, insert, contains, compare_bytes}
use replog.Proto.Meta.{PartitionMeta, TopicMeta, ClusterMeta}
use replog.Broker.Replica.{Replica}
use replog.Broker.Roles.{Outcome, apply_partition}

-- A topic and a partition.
abbrev pub Key : Type 0
Key = List ℕ × ℕ

abbrev pub compare_keys : Key → Key → Ordering
compare_keys j k = elim (compare_bytes j.0 k.0) [
  | Ordering.lt ↦ Ordering.lt
  | Ordering.eq ↦ compare j.1 k.1
  | Ordering.gt ↦ Ordering.gt
]

-- `Replica::new` at the time `now`.
unfoldable pub new_replica : ℕ → Replica
new_replica now = record {
  state = record {
    epoch = 0;
    is_leader = false;
    isr = [];
    replicas = [];
    match_offsets = [];
    pending_all = [];
    fetcher_generation = 0;
    fetcher_alive = false;
    leader_since = now;
  };
  hwm = 0;
}

abbrev pub Replicas : Type 0
Replicas = List (Key × Replica)

module _ (opens : Key → Bool) (log_end : Key → ℕ) (self_id now : ℕ) (meta : ClusterMeta) where
  -- `get_or_create_replica`; `none` is an error.
  unfoldable pub get_or_create : Replicas → Key → Option Replica
  get_or_create replicas key = elim (get compare_keys replicas key) [
    | some r ↦ some r
    | none ↦ if opens key then some (new_replica now) else none
  ]

  -- The body of the loop.
  unfoldable pub apply_one : Replicas → Key → PartitionMeta → Replicas × List (Key × Outcome)
  apply_one replicas key p =
      if contains p.replicas self_id
      then elim (get_or_create replicas key) [
        | none ↦ (replicas, [])
        | some r ↦
            let o = apply_partition self_id now (log_end key) meta p r in
            (insert compare_keys replicas key o.replica, (key, o) ∷ [])
      ]
      else (replicas, [])

  unfoldable pub apply_partitions :
      Replicas → List ℕ → List PartitionMeta → Replicas × List (Key × Outcome)
  apply_partitions replicas topic [] = (replicas, [])
  apply_partitions replicas topic (p ∷ ps) =
      let one = apply_one replicas (topic, p.partition) p in
      let rest = apply_partitions one.0 topic ps in (rest.0, one.1 ++ rest.1)

  unfoldable pub apply_topics : Replicas → List TopicMeta → Replicas × List (Key × Outcome)
  apply_topics replicas [] = (replicas, [])
  apply_topics replicas (t ∷ ts) =
      let one = apply_partitions replicas t.name t.partitions in
      let rest = apply_topics one.0 ts in (rest.0, one.1 ++ rest.1)

  unfoldable pub apply_metadata : Replicas → Replicas × List (Key × Outcome)
  unfolding apply_topics
  apply_metadata replicas = apply_topics replicas meta.topics
