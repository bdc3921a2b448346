-- ===== src/Checker/Verdict.antt =====
-- The verdict of the checker and the delivery contract.
use replog.Prelude.{
  ℕ, ◌≡◌, ◌↔◌, refl, sym, ap, ◌∙◌, subst, Bool, true, false, not, ◌&&◌, List, [], ◌∷◌, map, arith,
  inl, inr, Bool-cases, ◌==◌, ==-refl,
}
use replog.Prelude.Maps.{contains}
use replog.Checker.{
  ProducedRecord, ConsumedRecord, History, is_empty, is_ok, rewinds, divergences, verify,
}
use replog.Checker.Rising.{IsRising, rewinds-IsRising}
use replog.Checker.Consistent.{IsConsistent, divergences-IsConsistent}
use replog.Checker.Missing.{missing, contains-missing, IsDelivered}

nil_if : (xs : List ℕ) → ((m : ℕ) → contains xs m ≡ false) → xs ≡ []
nil_if [] h = refl
nil_if (x ∷ xs) h = let first : contains (x ∷ xs) x ≡ false = h x in ground (arith, ==-refl x)

IsDelivered-if :
    (ps : List ProducedRecord) (cs : List ConsumedRecord)
    → ((m : ℕ) → contains (map (λ p. p.id) ps) m ≡ true → contains (map (λ c. c.id) cs) m ≡ true)
    → IsDelivered ps cs
IsDelivered-if [] cs h = tt
IsDelivered-if (p ∷ ps) cs h =
    (h p.id (ground arith), IsDelivered-if ps cs (λ m c. h m (ground arith)))

IsDelivered-contains :
    (ps : List ProducedRecord) (cs : List ConsumedRecord) (m : ℕ)
    → IsDelivered ps cs
    → contains (map (λ p. p.id) ps) m ≡ true
    → contains (map (λ c. c.id) cs) m ≡ true
IsDelivered-contains [] cs m h c = ground arith
IsDelivered-contains (p ∷ ps) cs m (h, hs) c = elim (Bool-cases (m == p.id)) [
  | inl e ↦ subst (λ n. contains (map (λ d. d.id) cs) n ≡ true) (sym (ground arith)) h
  | inr e ↦ IsDelivered-contains ps cs m hs (ground arith)
]

missing-IsDelivered :
    (ps : List ProducedRecord) (cs : List ConsumedRecord) → (missing ps cs ≡ []) ↔ IsDelivered ps cs
missing-IsDelivered ps cs = (
  λ none. IsDelivered-if ps cs (λ m acked.
      let left : (contains (map (λ p. p.id) ps) m && not (contains (map (λ c. c.id) cs) m))
          ≡ false =
        sym (contains-missing ps cs m) ∙ ap (λ xs. contains xs m) none in
      ground arith),
  λ h. nil_if (missing ps cs) (λ m.
      contains-missing ps cs m
      ∙ delivered (contains (map (λ p. p.id) ps) m) (contains (map (λ c. c.id) cs) m)
          (IsDelivered-contains ps cs m h)),
)
  where
    delivered : (a b : Bool) → (a ≡ true → b ≡ true) → (a && not b) ≡ false
    delivered true b h = ground (arith, h refl)
    delivered false b h = refl

is_empty_iff : {A : Type 0} (xs : List A) → (is_empty xs ≡ true) ↔ (xs ≡ [])
is_empty_iff [] = ((λ e. refl), (λ e. refl))
is_empty_iff (x ∷ xs) = ((λ e. ground arith), (λ e. ground arith))

and_iff : (a b : Bool) → ((a && b) ≡ true) ↔ ((a ≡ true) × (b ≡ true))
and_iff a b = ground arith

-- The verdict of `verify` is good exactly where the contract holds: every acked id was consumed, in
-- each stream of a consumer's generation the offsets strictly increase, and any two records read at
-- one place of a log have one id.
pub is_ok-verify :
    (h : History)
    → (is_ok (verify h) ≡ true)
      ↔ (IsDelivered h.produced h.consumed × IsRising h.consumed × IsConsistent h.consumed)
unfolding is_ok verify
is_ok-verify h =
    let lost = missing-IsDelivered h.produced h.consumed in
    let rising = rewinds-IsRising h.consumed in
    let consistent = divergences-IsConsistent h.consumed in
    let lost_list = missing h.produced h.consumed in
    (
      λ ok.
          let parts = (and_iff (is_empty lost_list) _).0 ok in
          let others = (and_iff (is_empty (rewinds [] h.consumed)) _).0 parts.1 in
          let last = (and_iff (is_empty (divergences [] h.consumed)) true).0 others.1 in
          (
            lost.0 ((is_empty_iff lost_list).0 parts.0),
            rising.0 ((is_empty_iff (rewinds [] h.consumed)).0 others.0),
            consistent.0 ((is_empty_iff (divergences [] h.consumed)).0 last.0),
          ),
      λ (d, r, c). (and_iff (is_empty lost_list) _).1 (
        (is_empty_iff lost_list).1 (lost.1 d),
        (and_iff (is_empty (rewinds [] h.consumed)) _).1 (
          (is_empty_iff (rewinds [] h.consumed)).1 (rising.1 r),
          (and_iff (is_empty (divergences [] h.consumed)) true).1
              ((is_empty_iff (divergences [] h.consumed)).1 (consistent.1 c), refl),
        ),
      ),
    )
