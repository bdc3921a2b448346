-- ===== src/Checker.antt =====
-- src/checker/mod.rs: the verdict over what clients saw. A HashMap is the list of its entries in order
-- of the keys; a violation is the data of its message.
pub mod Rising
pub mod Consistent
pub mod Missing
pub mod Verdict
pub mod Gaps
mod Tests
use Prim.Native.Nat.{compare, Ordering}
use replog.Prelude.{
  ℕ, zero, suc, ◌+◌, ◌-◌, Bool, true, false, not, ◌&&◌, Option, none, some, List, [], ◌∷◌, ◌++◌,
  length, leb, ◌==◌, if◌then◌else◌,
}
use replog.Prelude.Maps.{get, insert, compare_bytes, contains}
use replog.Prelude.Maps.Pairs.{compare_pair}
use replog.Prelude.Sort.{sort}

pub record ProducedRecord : Type 0 where
  pub id : ℕ
  pub topic : List ℕ

pub record ConsumedRecord : Type 0 where
  pub consumer : List ℕ
  pub generation : ℕ
  pub topic : List ℕ
  pub partition : ℕ
  pub offset : ℕ
  pub id : ℕ

pub record History : Type 0 where
  pub produced : List ProducedRecord
  pub consumed : List ConsumedRecord

-- The key of `last_seen`, and that of `offset_ids`.
abbrev pub Stream : Type 0
Stream = List ℕ × (ℕ × (List ℕ × ℕ))

abbrev pub compare_streams : Stream → Stream → Ordering
compare_streams =
    compare_pair compare_bytes (compare_pair compare (compare_pair compare_bytes compare))

abbrev pub stream_of : ConsumedRecord → Stream
stream_of c = (c.consumer, (c.generation, (c.topic, c.partition)))

abbrev pub Place : Type 0
Place = List ℕ × (ℕ × ℕ)

abbrev pub compare_places : Place → Place → Ordering
compare_places = compare_pair compare_bytes (compare_pair compare compare)

abbrev pub place_of : ConsumedRecord → Place
place_of c = (c.topic, (c.partition, c.offset))

-- A record whose offset is not above `prev`, the one before it in its stream.
pub record Violation : Type 0 where
  pub stream : Stream
  pub offset : ℕ
  pub prev : ℕ

-- A place with the id that was seen first, and another one.
pub record Divergence : Type 0 where
  pub place : Place
  pub first_id : ℕ
  pub id : ℕ

-- A topic and partition, with how many offsets were consumed, the largest one, and the first hole.
pub record Gap : Type 0 where
  pub topic : List ℕ
  pub partition : ℕ
  pub count : ℕ
  pub largest : ℕ
  pub first_hole : ℕ

pub record Report : Type 0 where
  pub produced_acked : ℕ
  pub consumed_total : ℕ
  pub distinct_consumed : ℕ
  pub missing_ids : List ℕ
  pub duplicate_deliveries : ℕ
  pub monotonicity_violations : List Violation
  pub divergent_offsets : List Divergence
  pub offset_gaps : List Gap

abbrev pub is_empty {ℓ} : {A : Type ℓ} → List A → Bool
is_empty [] = true
is_empty (x ∷ xs) = false

unfoldable pub is_ok : Report → Bool
is_ok r =
    is_empty r.missing_ids
    && (is_empty r.monotonicity_violations
        && (is_empty r.divergent_offsets && is_empty r.offset_gaps))

unfoldable pub record_produced : History → ℕ → List ℕ → History
record_produced h id topic = record h {
  produced = h.produced ++ (record { id = id; topic = topic }) ∷ [];
}

unfoldable pub record_consumed : History → List ℕ → ℕ → List ℕ → ℕ → ℕ → ℕ → History
record_consumed h consumer generation topic partition offset id = record h {
  consumed =
      h.consumed
      ++ (record {
        consumer = consumer;
        generation = generation;
        topic = topic;
        partition = partition;
        offset = offset;
        id = id;
      })
        ∷ [];
}

-- `*consumed_count.entry(id).or_default() += 1`
unfoldable pub count_one : List (ℕ × ℕ) → ℕ → List (ℕ × ℕ)
count_one counts id = elim (get compare counts id) [
  | none ↦ insert compare counts id 1
  | some n ↦ insert compare counts id (n + 1)
]

unfoldable pub count_all : List (ℕ × ℕ) → List ConsumedRecord → List (ℕ × ℕ)
unfolding count_one
count_all counts [] = counts
count_all counts (c ∷ cs) = count_all (count_one counts c.id) cs

-- The ids that are not counted.
unfoldable pub uncounted : List (ℕ × ℕ) → List ProducedRecord → List ℕ
uncounted counts [] = []
uncounted counts (p ∷ ps) =
    let rest = uncounted counts ps in
    elim (get compare counts p.id) [ none ↦ p.id ∷ rest | some n ↦ rest ]

-- `dedup`, behind an element `prev` that is kept.
unfoldable pub dedup_from : ℕ → List ℕ → List ℕ
dedup_from prev [] = []
dedup_from prev (x ∷ xs) = let rest = dedup_from x xs in if x == prev then rest else x ∷ rest

unfoldable pub dedup : List ℕ → List ℕ
unfolding dedup_from
dedup [] = []
dedup (x ∷ xs) = x ∷ dedup_from x xs

-- The sum of the counts, each less one.
unfoldable pub duplicates : List (ℕ × ℕ) → ℕ
duplicates [] = 0
duplicates (e ∷ es) = (e.1 - 1) + duplicates es

-- The violation of a record behind `prev`.
unfoldable pub rewind : ConsumedRecord → Option ℕ → List Violation
rewind c none = []
rewind c (some prev) =
    if leb c.offset prev
    then (record { stream = stream_of c; offset = c.offset; prev = prev }) ∷ []
    else []

-- The loop with `last_seen`.
unfoldable pub rewinds : List (Stream × ℕ) → List ConsumedRecord → List Violation
unfolding rewind
rewinds last_seen [] = []
rewinds last_seen (c ∷ cs) =
    rewind c (get compare_streams last_seen (stream_of c))
    ++ rewinds (insert compare_streams last_seen (stream_of c) c.offset) cs

-- The id that was seen first, where it is another one.
unfoldable pub conflict : Option ℕ → ℕ → Option ℕ
conflict none id = none
conflict (some first) id = if first == id then none else some first

-- The loop with `offset_ids`.
unfoldable pub divergences : List (Place × ℕ) → List ConsumedRecord → List Divergence
unfolding conflict
divergences offset_ids [] = []
divergences offset_ids (c ∷ cs) =
    elim (conflict (get compare_places offset_ids (place_of c)) c.id) [
      | none ↦ divergences (insert compare_places offset_ids (place_of c) c.id) cs
      | some first ↦
          (record { place = place_of c; first_id = first; id = c.id }) ∷ divergences offset_ids cs
    ]

unfoldable pub verify : History → Report
unfolding count_all uncounted dedup duplicates rewinds divergences
verify h =
    let counts = count_all [] h.consumed in
    record {
      produced_acked = length h.produced;
      consumed_total = length h.consumed;
      distinct_consumed = length counts;
      missing_ids = dedup (sort (uncounted counts h.produced));
      duplicate_deliveries = duplicates counts;
      monotonicity_violations = rewinds [] h.consumed;
      divergent_offsets = divergences [] h.consumed;
      offset_gaps = [];
    }
