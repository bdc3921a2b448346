-- ===== src/Broker/Groups/Assign.antt =====
-- The partitions of a topic are shared out completely, and each of them once.
use replog.Prelude.{
  ℕ, zero, suc, ◌+◌, ◌*◌, ◌-◌, ◌/◌, ◌%◌, ◌<◌, ◌≡◌, refl, sym, ap, ◌∙◌, List, [], ◌∷◌, ◌++◌, length,
  min, arith, ltb, if◌then◌else◌,
}
use replog.Broker.Groups.Range.{Slots, slots_from, share, assign_topic}

-- What all members are given, in order of the members.
abbrev pub given : List (List ℕ × Slots) → Slots
given [] = []
given ((member, slots) ∷ rest) = slots ++ given rest

plus_zero : (a : ℕ) → a + 0 ≡ a
plus_zero a = omega arith

zero_plus : (a : ℕ) → 0 + a ≡ a
zero_plus a = omega arith

plus_suc : (a b : ℕ) → a + suc b ≡ (a + 1) + b
plus_suc a b = omega arith

suc_plus : (a b : ℕ) → suc a + b ≡ suc (a + b)
suc_plus a b = omega arith

slots_from-append :
    (topic : List ℕ) (next a b : ℕ)
    → slots_from topic next a ++ slots_from topic (next + a) b ≡ slots_from topic next (a + b)
unfolding slots_from
slots_from-append topic next zero b =
    ap (λ n. slots_from topic n b) (plus_zero next) ∙ ap (slots_from topic next) (sym (zero_plus b))
slots_from-append topic next (suc a) b =
    ap (λ t. (topic, next) ∷ t)
      (ap (λ n. slots_from topic (next + 1) a ++ slots_from topic n b) (plus_suc next a)
        ∙ slots_from-append topic (next + 1) a b)
    ∙ ap (slots_from topic next) (sym (suc_plus a b))

-- How many partitions the members from the `i`-th on take.
abbrev taken : ℕ → ℕ → ℕ → List (List ℕ) → ℕ
taken per extra i [] = 0
taken per extra i (member ∷ members) =
    (per + (if ltb i extra then 1 else 0)) + taken per extra (i + 1) members

given-share :
    (topic : List ℕ) (per extra i next : ℕ) (members : List (List ℕ))
    → given (share topic per extra i next members)
      ≡ slots_from topic next (taken per extra i members)
unfolding share
given-share topic per extra i next [] = unfold slots_from in refl
given-share topic per extra i next (member ∷ members) =
    let take = per + (if ltb i extra then 1 else 0) in
    ap (λ t. slots_from topic next take ++ t)
      (given-share topic per extra (i + 1) (next + take) members)
    ∙ slots_from-append topic next take (taken per extra (i + 1) members)

taken_eq :
    (per extra i : ℕ) (members : List (List ℕ))
    → taken per extra i members ≡ per * length members + min (length members) (extra - i)
taken_eq per extra i [] = omega arith
taken_eq per extra i (member ∷ members) = ground (arith, taken_eq per extra (i + 1) members)

div_mod : (p n : ℕ) → 0 < n → (p / n) * n + min n (p % n - 0) ≡ p
div_mod p n h = grind arith

-- What the subscribed members are given of a topic is, one member after the other, each of its
-- partitions from 0 on, once.
pub given-assign_topic :
    (topic : List ℕ) (partitions : ℕ) (member : List ℕ) (members : List (List ℕ))
    → given (assign_topic topic partitions (member ∷ members)) ≡ slots_from topic 0 partitions
unfolding assign_topic
given-assign_topic topic partitions member members =
    let n = length (member ∷ members) in
    let all : taken (partitions / n) (partitions % n) 0 (member ∷ members) ≡ partitions =
      taken_eq (partitions / n) (partitions % n) 0 (member ∷ members)
      ∙ div_mod partitions n (omega arith) in
    given-share topic (partitions / n) (partitions % n) 0 0 (member ∷ members)
    ∙ ap (slots_from topic 0) all
