-- ===== src/Checker/Gaps/Verdict.antt =====
-- The verdict of the checker over readers that start at offset 0.
use replog.Checker.Consistent.{IsConsistent}
use replog.Checker.Rising.{IsRising}
use replog.Checker.Missing.{IsDelivered}
use replog.Checker.Verdict.{is_ok-verify}
use mathlib.Core.Option.{some-injective}
use replog.Prelude.Maps.Laws.{All-get}
use replog.Prelude.{
  ◌<◌, ◌^◌, ltb, false, lt→ltb, ℕ, ◌+◌, ◌≤◌, ◌≡◌, refl, sym, ap, ◌∙◌, subst, true, Option, none,
  some, List, [], ◌∷◌, ◌++◌, length, All, arith, ◌==◌, if_cases, ◌↔◌,
}
use replog.Prelude.Maps.{get, contains}
use replog.Checker.{ConsumedRecord, History, Gap, Report, is_ok, verify}
use replog.Checker.Gaps.{
  Part, compare_parts, or_default, offsets_at, see_all, largest, hole_from, report_hole, gap_up_to,
  gap_of, with_gaps, gaps, add_gaps, verify_from_start,
}
use replog.Checker.Gaps.Holes.{
  IsWithin, IsRisingFrom, largest-IsWithin, contains-full, hole_from-none, hole_from-full,
  contains-largest,
}
use replog.Checker.Gaps.Seen.{
  was_read, contains-see_all, IsOffsets, IsSeen, see_all-IsSeen, see_all-IsFound,
}

-- Every offset before one that was read of a partition was read there.
abbrev pub IsGapless : List ConsumedRecord → Type 0
IsGapless cs = (k : Part) (o p : ℕ) → was_read cs k p ≡ true → o ≤ p → was_read cs k o ≡ true

-- The offsets have no hole before their last.
abbrev IsFull : List ℕ → Type 0
IsFull xs = (o p : ℕ) → contains xs p ≡ true → o ≤ p → contains xs o ≡ true

largest-above : (x : ℕ) (xs : List ℕ) (p : ℕ) → contains (x ∷ xs) p ≡ true → p ≤ largest x xs
unfolding largest
largest-above x [] p h = ground arith
largest-above x (y ∷ ys) p h = ground (arith, largest-above y ys p)

-- There is a result, and where it is empty the property holds.
abbrev IsJudged : Type 0 → Option (List Gap) → Type 0
IsJudged P o = (gs : List Gap) × (o ≡ some gs) × (gs ≡ [] → P)

IsJudged-report_hole :
    (P : Type 0) (k : Part) (count max : ℕ) (o : Option ℕ)
    → (o ≡ none → (hole : ℕ) × (o ≡ some hole))
    → IsJudged P (report_hole k count max o)
unfolding report_hole
IsJudged-report_hole P k count max none h = let absurd = (h refl).1 in ground arith
IsJudged-report_hole P k count max (some hole) h = (_, refl, λ e. ground arith)

length-no_hole :
    (x : ℕ) (xs : List ℕ)
    → IsRisingFrom 0 (x ∷ xs)
    → hole_from (largest x xs + 1) 0 (x ∷ xs) ≡ none
    → length (x ∷ xs) ≡ largest x xs + 1
length-no_hole x xs rising none_left =
    hole_from-none (largest x xs + 1) 0 (x ∷ xs)
      (subst (λ e. IsWithin 0 e (x ∷ xs)) (omega arith) (largest-IsWithin 0 x xs rising)) none_left

gap_up_to-IsFull :
    (k : Part) (x : ℕ) (xs : List ℕ)
    → IsRisingFrom 0 (x ∷ xs)
    → IsJudged (IsFull (x ∷ xs)) (gap_up_to k (x ∷ xs) (largest x xs))
unfolding gap_up_to
gap_up_to-IsFull k x xs rising =
    let end = largest x xs + 1 in
    let within : IsWithin 0 end (x ∷ xs) = largest-IsWithin 0 x xs rising in
    if_cases (IsJudged (IsFull (x ∷ xs))) (length (x ∷ xs) == end) (some []) _
      (λ e. (
        [],
        refl,
        λ f o p h le.
            let most : p ≤ largest x xs = largest-above x xs p h in
            contains-full 0 end o (x ∷ xs) within (ground arith) (omega arith) (omega arith),
      ))
      (λ e.
        IsJudged-report_hole (IsFull (x ∷ xs)) k (length (x ∷ xs)) (largest x xs)
          (hole_from end 0 (x ∷ xs))
          (λ f. let full : length (x ∷ xs) ≡ end = length-no_hole x xs rising f in ground arith))

-- The offsets of a partition, whose number is a 64-bit number.
abbrev IsCounted : List ℕ → Type 0
IsCounted xs = (o : ℕ) → contains xs o ≡ true → o + 1 < 2 ^ 64

gap_of-counted :
    (k : Part) (x : ℕ) (xs : List ℕ)
    → IsCounted (x ∷ xs)
    → gap_of k (x ∷ xs) ≡ gap_up_to k (x ∷ xs) (largest x xs)
unfolding gap_of
gap_of-counted k x xs counted =
    let fits : largest x xs + 1 < 2 ^ 64 = counted (largest x xs) (contains-largest x xs) in
    rw (lt→ltb (largest x xs + 1) (2 ^ 64) fits) refl

gap_of-IsFull :
    (k : Part) (xs : List ℕ) → IsOffsets xs → IsCounted xs → IsJudged (IsFull xs) (gap_of k xs)
gap_of-IsFull k [] (rising, some_there) counted = ground arith
gap_of-IsFull k (x ∷ xs) (rising, some_there) counted =
    subst (IsJudged (IsFull (x ∷ xs))) (sym (gap_of-counted k x xs counted))
      (gap_up_to-IsFull k x xs rising)

-- The panic of `max + 1`.
pub gap_of-overflow :
    (k : Part) (x : ℕ) (xs : List ℕ) → 2 ^ 64 ≤ largest x xs + 1 → gap_of k (x ∷ xs) ≡ none
unfolding gap_of
gap_of-overflow k x xs over =
    let past : ltb (largest x xs + 1) (2 ^ 64) ≡ false = ground arith in rw past refl

IsJudged-with_gaps :
    (P Q : Type 0) (o o' : Option (List Gap))
    → IsJudged P o
    → IsJudged Q o'
    → IsJudged (P × Q) (with_gaps o o')
IsJudged-with_gaps P Q none o' (gs, e, h) h' = ground arith
IsJudged-with_gaps P Q (some g) none h (gs, e, h') = ground arith
IsJudged-with_gaps P Q (some []) (some gs) (g', e, h) (gs', e', h') =
    (gs, refl, λ f. (h (ground arith), h' (ground arith)))
IsJudged-with_gaps P Q (some (x ∷ xs)) (some gs) h h' = (x ∷ xs ++ gs, refl, λ f. ground arith)

gaps-IsFull :
    (seen : List (Part × List ℕ))
    → IsSeen seen
    → All (λ e. IsCounted e.1) seen
    → IsJudged (All (λ e. IsFull e.1) seen) (gaps seen)
unfolding gaps
gaps-IsFull [] h c = ([], refl, λ e. tt)
gaps-IsFull (e ∷ es) (h, hs) (c, cs) =
    IsJudged-with_gaps (IsFull e.1) (All (λ e. IsFull e.1) es) (gap_of e.0 e.1) (gaps es)
      (gap_of-IsFull e.0 e.1 h c) (gaps-IsFull es hs cs)

IsFull-or_default :
    (o : Option (List ℕ)) → ((xs : List ℕ) → o ≡ some xs → IsFull xs) → IsFull (or_default o)
IsFull-or_default none h = λ o p e le. ground arith
IsFull-or_default (some xs) h = h xs refl

all_reads :
    (cs : List ConsumedRecord) (k : Part) (o : ℕ)
    → contains (offsets_at (see_all [] cs) k) o ≡ was_read cs k o
all_reads cs k o = contains-see_all [] cs k o ∙ ground arith

IsGapless-if : (cs : List ConsumedRecord) → All (λ e. IsFull e.1) (see_all [] cs) → IsGapless cs
IsGapless-if cs h k o p read le =
    let full : IsFull (offsets_at (see_all [] cs) k) =
      IsFull-or_default (get compare_parts (see_all [] cs) k)
        (λ xs e. All-get compare_parts IsFull (see_all [] cs) k xs h e) in
    sym (all_reads cs k o) ∙ full o p (all_reads cs k p ∙ read) le

add_gaps-is_ok :
    (report : Report) (gs : List Gap)
    → report.offset_gaps ≡ []
    → is_ok (record report { offset_gaps = gs }) ≡ true
    → (is_ok report ≡ true) × (gs ≡ [])
unfolding is_ok
add_gaps-is_ok report gs h ok = ground arith

no_gaps_yet : (h : History) → (verify h).offset_gaps ≡ []
unfolding verify
no_gaps_yet h = refl

gap_of-full :
    (k : Part) (xs : List ℕ) → IsOffsets xs → IsCounted xs → IsFull xs → gap_of k xs ≡ some []
unfolding gap_up_to
gap_of-full k [] (rising, some_there) counted full = ground arith
gap_of-full k (x ∷ xs) (rising, some_there) counted full =
    let end = largest x xs + 1 in
    let none_left : hole_from end 0 (x ∷ xs) ≡ none =
      hole_from-full end 0 (x ∷ xs)
        (λ o le lt. full o (largest x xs) (contains-largest x xs) (omega arith)) in
    let long : length (x ∷ xs) ≡ end = length-no_hole x xs rising none_left in
    gap_of-counted k x xs counted ∙ ground arith

gaps-full :
    (seen : List (Part × List ℕ))
    → IsSeen seen
    → All (λ e. IsCounted e.1) seen
    → All (λ e. IsFull e.1) seen
    → gaps seen ≡ some []
unfolding gaps
gaps-full [] h c f = refl
gaps-full (e ∷ es) (h, hs) (c, cs) (f, fs) =
    rw (gap_of-full e.0 e.1 h c f, gaps-full es hs cs fs) refl

-- What holds of each entry whose offsets are those that were read of its key.
entries_read :
    (P : List ℕ → Type 0) (cs : List ConsumedRecord) (es : List (Part × List ℕ))
    → ((k : Part) (xs : List ℕ) → ((o : ℕ) → contains xs o ≡ was_read cs k o) → P xs)
    → All (λ e. get compare_parts (see_all [] cs) e.0 ≡ some e.1) es
    → All (λ e. P e.1) es
entries_read P cs [] g h = tt
entries_read P cs (e ∷ es) g (h, hs) = (
  g e.0 e.1 (λ o. sym (ap (λ r. contains (or_default r) o) h) ∙ all_reads cs e.0 o),
  entries_read P cs es g hs,
)

IsFull-entries : (cs : List ConsumedRecord) → IsGapless cs → All (λ e. IsFull e.1) (see_all [] cs)
IsFull-entries cs g =
    entries_read IsFull cs (see_all [] cs)
      (λ k xs reads o p there le. reads o ∙ g k o p (sym (reads p) ∙ there) le) (see_all-IsFound cs)

-- The number of the offsets up to one that was read is a 64-bit number.
abbrev pub IsCountable : List ConsumedRecord → Type 0
IsCountable cs = All (λ c. c.offset + 1 < 2 ^ 64) cs

read-IsCountable :
    (cs : List ConsumedRecord) (k : Part) (o : ℕ)
    → IsCountable cs
    → was_read cs k o ≡ true
    → o + 1 < 2 ^ 64
read-IsCountable [] k o h read = ground arith
read-IsCountable (c ∷ cs) k o (h, hs) read = ground (arith, read-IsCountable cs k o hs)

IsCounted-entries :
    (cs : List ConsumedRecord) → IsCountable cs → All (λ e. IsCounted e.1) (see_all [] cs)
IsCounted-entries cs h =
    entries_read IsCounted cs (see_all [] cs)
      (λ k xs reads o there. read-IsCountable cs k o h (sym (reads o) ∙ there)) (see_all-IsFound cs)

is_ok-add_gaps :
    (report : Report) (gs : List Gap)
    → is_ok report ≡ true
    → gs ≡ []
    → is_ok (record report { offset_gaps = gs }) ≡ true
unfolding is_ok
is_ok-add_gaps report gs ok h = ground arith

-- Where each offset and the next number are 64-bit numbers, the check from the start ends with a
-- report, which is good exactly where the delivery contract holds and, of each partition, every offset
-- up to one that was read was read too.
pub is_ok-verify_from_start :
    (h : History)
    → IsCountable h.consumed
    → (r : Report) × (verify_from_start h ≡ some r)
      × ((is_ok r ≡ true) ↔ (
          IsDelivered h.produced h.consumed
          × IsRising h.consumed
          × IsConsistent h.consumed
          × IsGapless h.consumed))
unfolding verify_from_start
is_ok-verify_from_start h countable =
    let seen = see_all [] h.consumed in
    let are_seen : IsSeen seen = see_all-IsSeen [] h.consumed tt in
    let counted = IsCounted-entries h.consumed countable in
    let judged = gaps-IsFull seen are_seen counted in
    let gs = judged.0 in
    (
      record (verify h) { offset_gaps = gs },
      ap (add_gaps (verify h)) judged.1,
      (
        λ ok.
            let good = add_gaps-is_ok (verify h) gs (no_gaps_yet h) ok in
            let (d, r, c) = (is_ok-verify h).0 good.0 in
            (d, r, c, IsGapless-if h.consumed (judged.2 good.1)),
        λ (d, r, c, g).
            let full = IsFull-entries h.consumed g in
            let no_gaps : some gs ≡ some [] = sym judged.1 ∙ gaps-full seen are_seen counted full in
            is_ok-add_gaps (verify h) gs ((is_ok-verify h).1 (d, r, c))
              (some-injective gs [] no_gaps),
      ),
    )
