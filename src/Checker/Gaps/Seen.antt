-- ===== src/Checker/Gaps/Seen.antt =====
-- The offsets that are seen of a partition are those that were read there, in order.
use Prim.Native.Nat.{compare}
use replog.Prelude.{
  ℕ, ◌≡◌, refl, sym, ap, ◌∙◌, subst, Bool, true, false, ◌&&◌, Option, none, some, List, [], ◌∷◌,
  All, arith, Bool-cases, inl, inr, ◌==◌, if◌then◌else◌,
}
use replog.Prelude.Maps.{IsSorted, get, insert, compare_bytes, contains}
use replog.Prelude.Maps.Orders.{
  IsOrder, compare-IsOrder, compare_bytes-IsOrder, compare_pair-IsOrder, insert-IsSorted,
  IsSorted-IsFound,
}
use replog.Prelude.Maps.Laws.{All-get, All-insert}
use replog.Prelude.Maps.GetInsert.{
  is_eq, IsKey, compare_bytes-IsKey, get-insert_same, get-insert_other,
}
use replog.Prelude.Maps.Pairs.{compare_pair-IsKey, compare-IsKey}
use replog.Checker.{ConsumedRecord, is_empty}
use replog.Checker.Gaps.{Part, compare_parts, part_of, put, or_default, offsets_at, see, see_all}
use replog.Checker.Gaps.Holes.{IsRisingFrom, put-IsRisingFrom, contains-put, is_empty-put}

compare_parts-IsKey : IsKey compare_parts
compare_parts-IsKey = compare_pair-IsKey compare_bytes compare compare_bytes-IsKey compare-IsKey

-- Whether an offset of a partition was read.
abbrev pub was_read : List ConsumedRecord → Part → ℕ → Bool
was_read [] k o = false
was_read (c ∷ cs) k o =
    if is_eq (compare_parts k (part_of c)) && o == c.offset then true else was_read cs k o

abbrev or_else : Bool → Bool → Bool
or_else a b = if a then true else b

contains-see :
    (seen : List (Part × List ℕ)) (c : ConsumedRecord) (k : Part) (o : ℕ)
    → contains (offsets_at (see seen c) k) o
      ≡ or_else
          (is_eq (compare_parts k (part_of c)) && o == c.offset)
          (contains (offsets_at seen k) o)
unfolding see
contains-see seen c k o =
    let here = part_of c in
    let offsets = put (offsets_at seen here) c.offset in
    elim (Bool-cases (is_eq (compare_parts k here))) [
      | inl e ↦
          let same : k ≡ here = compare_parts-IsKey.sound k here (ground arith) in
          let found : contains (offsets_at (insert compare_parts seen here offsets) k) o
              ≡ contains offsets o =
            subst
              (λ j.
                contains (offsets_at (insert compare_parts seen here offsets) j) o
                ≡ contains offsets o)
              (sym same)
              (ap (λ r. contains (or_default r) o)
                (get-insert_same compare_parts compare_parts-IsKey seen here offsets)) in
          let old : contains (offsets_at seen here) o ≡ contains (offsets_at seen k) o =
            ap (λ j. contains (offsets_at seen j) o) (sym same) in
          found ∙ (contains-put (offsets_at seen here) c.offset o ∙ ground arith)
      | inr e ↦
          ap (λ r. contains (or_default r) o)
            (get-insert_other compare_parts compare_parts-IsKey seen here offsets k e)
          ∙ ground arith
    ]

pub contains-see_all :
    (seen : List (Part × List ℕ)) (cs : List ConsumedRecord) (k : Part) (o : ℕ)
    → contains (offsets_at (see_all seen cs) k) o
      ≡ or_else (was_read cs k o) (contains (offsets_at seen k) o)
unfolding see_all
contains-see_all seen [] k o = refl
contains-see_all seen (c ∷ cs) k o =
    contains-see_all (see seen c) cs k o
    ∙ (ap (or_else (was_read cs k o)) (contains-see seen c k o) ∙ ground arith)

-- The offsets rise strictly, and there are some.
abbrev pub IsOffsets : List ℕ → Type 0
IsOffsets xs = IsRisingFrom 0 xs × (is_empty xs ≡ false)

abbrev pub IsSeen : List (Part × List ℕ) → Type 0
IsSeen seen = All (λ e. IsOffsets e.1) seen

rising_or_default :
    (o : Option (List ℕ))
    → ((xs : List ℕ) → o ≡ some xs → IsOffsets xs)
    → IsRisingFrom 0 (or_default o)
rising_or_default none h = tt
rising_or_default (some xs) h = (h xs refl).0

see-IsSeen : (seen : List (Part × List ℕ)) (c : ConsumedRecord) → IsSeen seen → IsSeen (see seen c)
unfolding see
see-IsSeen seen c h =
    let before =
      rising_or_default (get compare_parts seen (part_of c))
        (λ xs e. All-get compare_parts IsOffsets seen (part_of c) xs h e) in
    All-insert compare_parts (λ (e : Part × List ℕ). IsOffsets e.1) seen (part_of c) _ h
      (
        put-IsRisingFrom 0 c.offset (offsets_at seen (part_of c)) before (omega arith),
        is_empty-put (offsets_at seen (part_of c)) c.offset,
      )

pub see_all-IsSeen :
    (seen : List (Part × List ℕ)) (cs : List ConsumedRecord)
    → IsSeen seen
    → IsSeen (see_all seen cs)
unfolding see_all
see_all-IsSeen seen [] h = h
see_all-IsSeen seen (c ∷ cs) h = see_all-IsSeen (see seen c) cs (see-IsSeen seen c h)

compare_parts-IsOrder : IsOrder compare_parts
compare_parts-IsOrder =
    compare_pair-IsOrder compare_bytes compare compare_bytes-IsOrder compare-IsOrder

see_all-IsSorted :
    (seen : List (Part × List ℕ)) (cs : List ConsumedRecord)
    → IsSorted compare_parts seen
    → IsSorted compare_parts (see_all seen cs)
unfolding see_all see
see_all-IsSorted seen [] h = h
see_all-IsSorted seen (c ∷ cs) h =
    see_all-IsSorted (see seen c) cs
      (insert-IsSorted compare_parts compare_parts-IsOrder seen (part_of c) _ h)

-- Each entry has the offsets that its key is mapped to.
pub see_all-IsFound :
    (cs : List ConsumedRecord)
    → All (λ e. get compare_parts (see_all [] cs) e.0 ≡ some e.1) (see_all [] cs)
see_all-IsFound cs =
    IsSorted-IsFound compare_parts compare_parts-IsOrder (see_all [] cs) (see_all-IsSorted [] cs tt)
