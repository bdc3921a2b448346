-- ===== src/Checker/Gaps.antt =====
-- src/checker/mod.rs: verify_from_start. A HashSet of offsets is the list of them in order. The sum
-- `max + 1` of 64-bit numbers is checked for overflow, as a build with overflow checks does.
pub mod Holes
pub mod Seen
pub mod Verdict
use Prim.Native.Nat.{compare, Ordering}
use replog.Prelude.{
  ◌^◌, ℕ, zero, suc, ◌+◌, Option, none, some, List, [], ◌∷◌, ◌++◌, length, ltb, ◌==◌, if◌then◌else◌,
}
use replog.Prelude.Maps.{get, insert, compare_bytes, contains}
use replog.Prelude.Maps.Pairs.{compare_pair}
use replog.Checker.{ConsumedRecord, History, Gap, Report, verify}

-- The key of `seen`: a topic and a partition.
abbrev pub Part : Type 0
Part = List ℕ × ℕ

abbrev pub compare_parts : Part → Part → Ordering
compare_parts = compare_pair compare_bytes compare

abbrev pub part_of : ConsumedRecord → Part
part_of c = (c.topic, c.partition)

-- `HashSet::insert`
unfoldable pub put : List ℕ → ℕ → List ℕ
put [] o = o ∷ []
put (x ∷ xs) o =
    let rest = put xs o in if ltb o x then o ∷ x ∷ xs else if o == x then x ∷ xs else x ∷ rest

-- `entry(..).or_default()`
abbrev pub or_default : Option (List ℕ) → List ℕ
or_default none = []
or_default (some offsets) = offsets

abbrev pub offsets_at : List (Part × List ℕ) → Part → List ℕ
offsets_at seen k = or_default (get compare_parts seen k)

unfoldable pub see : List (Part × List ℕ) → ConsumedRecord → List (Part × List ℕ)
see seen c = insert compare_parts seen (part_of c) (put (offsets_at seen (part_of c)) c.offset)

-- The loop that fills `seen`.
unfoldable pub see_all : List (Part × List ℕ) → List ConsumedRecord → List (Part × List ℕ)
see_all seen [] = seen
see_all seen (c ∷ cs) = see_all (see seen c) cs

-- `offsets.iter().max()` of offsets that are not empty.
unfoldable pub largest : ℕ → List ℕ → ℕ
largest x [] = x
largest x (y ∷ ys) = let m = largest y ys in if ltb x m then m else x

-- `find(|o| !offsets.contains(o))` over `n` offsets from `start` on.
unfoldable pub hole_from : ℕ → ℕ → List ℕ → Option ℕ
hole_from zero start offsets = none
hole_from (suc n) start offsets =
    let rest = hole_from n (start + 1) offsets in
    if contains offsets start then rest else some start

unfoldable pub report_hole : Part → ℕ → ℕ → Option ℕ → Option (List Gap)
report_hole k count max none = none
report_hole k count max (some hole) = some (
    (record { topic = k.0; partition = k.1; count = count; largest = max; first_hole = hole }) ∷ [])

-- The gap of a partition whose largest offset is `max`, which is counted up to `max + 1`.
unfoldable pub gap_up_to : Part → List ℕ → ℕ → Option (List Gap)
unfolding report_hole
gap_up_to k offsets max =
    if length offsets == max + 1
    then some []
    else report_hole k (length offsets) max (hole_from (max + 1) 0 offsets)

-- The gap of a partition, if there is one. `none` is a panic: of an `unwrap`, or of `max + 1`.
unfoldable pub gap_of : Part → List ℕ → Option (List Gap)
unfolding gap_up_to
gap_of k [] = none
gap_of k (x ∷ xs) =
    let max = largest x xs in if ltb (max + 1) (2 ^ 64) then gap_up_to k (x ∷ xs) max else none

abbrev pub with_gaps : Option (List Gap) → Option (List Gap) → Option (List Gap)
with_gaps none gs = none
with_gaps (some g) none = none
with_gaps (some g) (some gs) = some (g ++ gs)

-- The gaps in order of the keys.
unfoldable pub gaps : List (Part × List ℕ) → Option (List Gap)
gaps [] = some []
gaps (e ∷ es) = with_gaps (gap_of e.0 e.1) (gaps es)

abbrev pub add_gaps : Report → Option (List Gap) → Option Report
add_gaps report none = none
add_gaps report (some gs) = some (record report { offset_gaps = gs })

unfoldable pub verify_from_start : History → Option Report
verify_from_start h = add_gaps (verify h) (gaps (see_all [] h.consumed))
