-- ===== src/Broker/Topics.antt =====
-- src/broker/mod.rs: the topics of a broker without a cluster. The handles of a topic's partitions are
-- counted; `opens` says whether `partition::spawn` succeeds. A name is the list of its bytes.
use replog.Prelude.Maps.GetInsert.{get-insert_same, compare_bytes-IsKey}
use replog.Prelude.{
  ℕ, zero, suc, ◌+◌, ◌≡◌, Bool, true, false, not, ◌&&◌, ◌||◌, Option, none, some, List, [], ◌∷◌,
  map, length, ltb, leb, ◌==◌, if◌then◌else◌, arith, if_cases,
}
use replog.Prelude.Int.{pos}
use replog.Prelude.Maps.{get, insert, compare_bytes}
use replog.Prelude.Sort.{sort}
use replog.Proto.Wire.{as_u32}
use replog.Proto.Codes.{ErrorCode}
use replog.Proto.Meta.{PartitionMeta, ClusterMeta}

-- The number of partitions of each topic, in order of the names.
abbrev pub Topics : Type 0
Topics = List (List ℕ × ℕ)

-- `is_ascii_alphanumeric() || c == '-' || c == '_' || c == '.'`. A byte of a longer character is above
-- 127.
unfoldable pub name_char : ℕ → Bool
name_char c =
    (leb 48 c && leb c 57)
    || ((leb 65 c && leb c 90) || ((leb 97 c && leb c 122) || (c == 45 || (c == 95 || c == 46))))

unfoldable pub all_chars : List ℕ → Bool
unfolding name_char
all_chars [] = true
all_chars (c ∷ cs) = name_char c && all_chars cs

-- `starts_with("__")`
unfoldable pub is_internal : List ℕ → Bool
is_internal [] = false
is_internal (c ∷ []) = false
is_internal (c ∷ d ∷ cs) = c == 95 && d == 95

unfoldable pub valid_topic_name : List ℕ → Bool
unfolding is_internal all_chars
valid_topic_name name =
    not (length name == 0) && (leb (length name) 200 && (not (is_internal name) && all_chars name))

-- Whether all of the first `n` partitions open.
unfoldable pub all_open : (ℕ → Bool) → ℕ → Bool
all_open opens zero = true
all_open opens (suc n) = all_open opens n && opens n

unfoldable pub create_topic : (List ℕ → ℕ → Bool) → Topics → List ℕ → ℕ → Topics × ErrorCode
create_topic opens topics topic partitions =
    if not (valid_topic_name topic) || (partitions == 0 || ltb 1024 partitions)
    then (topics, ErrorCode.malformed_request)
    else elim (get compare_bytes topics topic) [
      | some n ↦ (topics, ErrorCode.topic_exists)
      | none ↦
          if all_open (opens topic) partitions
          then (insert compare_bytes topics topic partitions, ErrorCode.none)
          else (topics, ErrorCode.storage)
    ]

-- `CreateTopic` of a broker that has no controller.
unfoldable pub create_standalone :
    (List ℕ → ℕ → Bool) → Topics → List ℕ → ℕ → ℕ → Topics × ErrorCode
create_standalone opens topics topic partitions replication_factor =
    if ltb 1 replication_factor
    then (topics, ErrorCode.malformed_request)
    else create_topic opens topics topic partitions

-- Whether there is such a partition.
unfoldable pub has_partition : Topics → List ℕ → ℕ → Bool
has_partition topics topic partition = elim (get compare_bytes topics topic) [
  | none ↦ false
  | some n ↦ ltb partition n
]

unfoldable pub standalone_partitions : ℕ → ℕ → List PartitionMeta
standalone_partitions zero partition = []
standalone_partitions (suc n) partition =
    (record {
      partition = partition;
      leader = pos 0;
      leader_epoch = 0;
      replicas = 0 ∷ [];
      isr = 0 ∷ [];
    })
    ∷ standalone_partitions n (partition + 1)

unfoldable pub metadata : Topics → List ℕ → ClusterMeta
metadata topics advertised = record {
  version = 0;
  brokers = (0, advertised) ∷ [];
  peers = (0, advertised) ∷ [];
  topics =
      map (λ t. record { name = t.0; partitions = standalone_partitions (as_u32 t.1) 0 }) topics;
}

-- `scan_data_dir` behind the listing: whether the numbers of a topic's partitions, in order, run from
-- `want` on.
unfoldable pub contiguous : ℕ → List ℕ → Bool
contiguous want [] = true
contiguous want (have ∷ ps) = want == have && contiguous (want + 1) ps

-- The number of partitions of a topic, `none` where there is a hole.
unfoldable pub scan_topic : List ℕ → Option ℕ
unfolding contiguous
scan_topic ps =
    let sorted = sort ps in if contiguous 0 sorted then some (as_u32 (length sorted)) else none

-- The topic has its partitions, unless there is an error.
abbrev IsCreated : List ℕ → ℕ → Topics × ErrorCode → Type 0
IsCreated topic partitions after =
    after.1 ≡ ErrorCode.none → get compare_bytes after.0 topic ≡ some partitions

-- A topic that is created without an error is found, with the number of its partitions.
pub create_topic-IsCreated :
    (opens : List ℕ → ℕ → Bool) (topics : Topics) (topic : List ℕ) (partitions : ℕ)
    → IsCreated topic partitions (create_topic opens topics topic partitions)
unfolding create_topic
create_topic-IsCreated opens topics topic partitions =
    if_cases (IsCreated topic partitions)
      (not (valid_topic_name topic) || (partitions == 0 || ltb 1024 partitions))
      (topics, ErrorCode.malformed_request) _ (λ e h. ground arith)
      (λ e.
        elim (get compare_bytes topics topic)
          as (λ o. IsCreated topic partitions (elim o [
            | some n ↦ (topics, ErrorCode.topic_exists)
            | none ↦
                if all_open (opens topic) partitions
                then (insert compare_bytes topics topic partitions, ErrorCode.none)
                else (topics, ErrorCode.storage)
          ])) [
            | some n ↦ λ h. ground arith
            | none ↦
                if_cases (IsCreated topic partitions) (all_open (opens topic) partitions)
                  (insert compare_bytes topics topic partitions, ErrorCode.none)
                  (topics, ErrorCode.storage)
                  (λ f h. get-insert_same compare_bytes compare_bytes-IsKey topics topic partitions)
                  (λ f h. ground arith)
          ])
