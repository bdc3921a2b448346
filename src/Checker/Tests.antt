-- ===== src/Checker/Tests.antt =====
-- The checker on concrete histories, and its theorem at one.
use replog.Prelude.{ℕ, ◌≡◌, ◌↔◌, refl, true, List, [], ◌∷◌, length, some, arith, none}
use replog.Prelude.Sort.{sort, put_in_order}
use replog.Checker.{
  ConsumedRecord, Report, History, is_ok, verify, count_all, count_one, uncounted, dedup,
  dedup_from, duplicates, rewinds, rewind, divergences, conflict,
}
use replog.Checker.Rising.{IsRising}
use replog.Checker.Consistent.{IsConsistent}
use replog.Checker.Missing.{IsDelivered}
use replog.Checker.Verdict.{is_ok-verify}
use replog.Checker.Gaps.{
  see, see_all, put, largest, hole_from, report_hole, gap_of, gap_up_to, gaps, verify_from_start,
}
use replog.Checker.Gaps.Verdict.{IsGapless, gap_of-overflow, is_ok-verify_from_start}

abbrev empty : History
empty = record { produced = []; consumed = [] }

abbrev topic : List ℕ
topic = 116 ∷ []

-- Two acked ids, the second never consumed; the first read twice in one generation and once more by
-- another consumer, who sees another id there.
abbrev bad : History
bad = record {
  produced = (record { id = 1; topic = topic }) ∷ (record { id = 2; topic = topic }) ∷ [];
  consumed =
      (record {
        consumer = 1 ∷ [];
        generation = 3;
        topic = topic;
        partition = 0;
        offset = 5;
        id = 1;
      })
      ∷ (record {
        consumer = 1 ∷ [];
        generation = 3;
        topic = topic;
        partition = 0;
        offset = 5;
        id = 1;
      })
      ∷ (record {
        consumer = 2 ∷ [];
        generation = 3;
        topic = topic;
        partition = 0;
        offset = 5;
        id = 7;
      })
      ∷ [];
}

bad_missing : (verify bad).missing_ids ≡ 2 ∷ []
unfolding verify count_all count_one uncounted sort put_in_order dedup dedup_from
bad_missing = refl

bad_rewinds : length (verify bad).monotonicity_violations ≡ 1
unfolding verify rewinds rewind
bad_rewinds = refl

bad_diverges : length (verify bad).divergent_offsets ≡ 1
unfolding verify divergences conflict
bad_diverges = refl

bad_duplicates : (verify bad).duplicate_deliveries ≡ 1
unfolding verify count_all count_one duplicates
bad_duplicates = refl

-- A rewind across generations is legal.
abbrev good : History
good = record {
  produced = (record { id = 1; topic = topic }) ∷ [];
  consumed =
      (record {
        consumer = 1 ∷ [];
        generation = 3;
        topic = topic;
        partition = 0;
        offset = 5;
        id = 1;
      })
      ∷ (record {
        consumer = 1 ∷ [];
        generation = 4;
        topic = topic;
        partition = 0;
        offset = 5;
        id = 1;
      })
      ∷ [];
}

good_passes : is_ok (verify good) ≡ true
unfolding is_ok verify count_all count_one uncounted sort put_in_order dedup dedup_from rewinds
    rewind divergences conflict
good_passes = refl

is_ok-verify_example : (is_ok (verify good) ≡ true) ↔ (
    IsDelivered good.produced good.consumed × IsRising good.consumed × IsConsistent good.consumed)
is_ok-verify_example = is_ok-verify good

-- Offset 2 is never read.
abbrev read_at : ℕ → ConsumedRecord
read_at offset = record {
  consumer = 1 ∷ [];
  generation = 0;
  topic = topic;
  partition = 0;
  offset = offset;
  id = offset;
}

abbrev holed : History
holed = record { produced = []; consumed = read_at 0 ∷ read_at 1 ∷ read_at 3 ∷ [] }

holed_gap :
    gaps (see_all [] holed.consumed)
    ≡ some ((record { topic = topic; partition = 0; count = 3; largest = 3; first_hole = 2 }) ∷ [])
unfolding gaps see_all see put gap_of gap_up_to largest hole_from report_hole
holed_gap = refl

abbrev whole : History
whole = record { produced = []; consumed = read_at 1 ∷ read_at 0 ∷ read_at 1 ∷ [] }

no_gap : gaps (see_all [] whole.consumed) ≡ some []
unfolding gaps see_all see put gap_of gap_up_to largest
no_gap = refl

is_ok-verify_from_start_example :
    (r : Report) × (verify_from_start holed ≡ some r)
    × ((is_ok r ≡ true) ↔ (
        IsDelivered holed.produced holed.consumed
        × IsRising holed.consumed
        × IsConsistent holed.consumed
        × IsGapless holed.consumed))
is_ok-verify_from_start_example =
    is_ok-verify_from_start holed (omega arith, (omega arith, (omega arith, tt)))

-- The last 64-bit offset.
last_panics : gap_of (topic, 0) (18446744073709551615 ∷ []) ≡ none
unfolding largest
last_panics = gap_of-overflow (topic, 0) 18446744073709551615 [] (omega arith)
