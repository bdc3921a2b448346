-- ===== src/Checker/Missing.antt =====
-- The acked ids that nobody consumed, and the deliveries beyond the first.
use Prim.Native.Nat.{compare}
use replog.Prelude.{
  ℕ, ◌+◌, ◌≡◌, refl, ap, ◌∙◌, Bool, true, false, not, ◌&&◌, Option, none, some, List, [], ◌∷◌, All,
  map, arith, ◌==◌, if◌then◌else◌,
}
use replog.Prelude.Maps.{get, insert, contains}
use replog.Prelude.Sort.{sort, contains-sort}
use replog.Checker.{
  ProducedRecord, ConsumedRecord, count_one, count_all, uncounted, dedup_from, dedup,
}

-- Whether the map has the id.
abbrev counted : List (ℕ × ℕ) → ℕ → Bool
counted counts id = elim (get compare counts id) [ none ↦ false | some n ↦ true ]

counted-insert :
    (counts : List (ℕ × ℕ)) (id n m : ℕ)
    → counted (insert compare counts id n) m ≡ (if m == id then true else counted counts m)
counted-insert [] id n m = ground arith
counted-insert ((k, v) ∷ counts) id n m = ground (arith, counted-insert counts id n m)

counted-count_one :
    (counts : List (ℕ × ℕ)) (id m : ℕ)
    → counted (count_one counts id) m ≡ (if m == id then true else counted counts m)
unfolding count_one
counted-count_one counts id m =
    elim (get compare counts id)
      as (λ o.
        counted
          (elim o [ none ↦ insert compare counts id 1 | some n ↦ insert compare counts id (n + 1) ])
          m
        ≡ (if m == id then true else counted counts m)) [
          | none ↦ counted-insert counts id 1 m
          | some n ↦ counted-insert counts id (n + 1) m
        ]

counted-count_all :
    (counts : List (ℕ × ℕ)) (cs : List ConsumedRecord) (m : ℕ)
    → counted (count_all counts cs) m
      ≡ (if contains (map (λ c. c.id) cs) m then true else counted counts m)
unfolding count_all
counted-count_all counts [] m = refl
counted-count_all counts (c ∷ cs) m =
    counted-count_all (count_one counts c.id) cs m ∙ ground (arith, counted-count_one counts c.id m)

-- One step of the filter, where `seen` says whether the map has `m`.
uncounted_one :
    (o : Option ℕ) (seen : Bool) (m id : ℕ) (rest ids : List ℕ)
    → (m ≡ id → seen ≡ elim o [ none ↦ false | some n ↦ true ])
    → contains rest m ≡ (contains ids m && not seen)
    → contains (elim o [ none ↦ id ∷ rest | some n ↦ rest ]) m
      ≡ ((if m == id then true else contains ids m) && not seen)
uncounted_one none seen m id rest ids e h = ground arith
uncounted_one (some n) seen m id rest ids e h = ground arith

contains-uncounted :
    (counts : List (ℕ × ℕ)) (ps : List ProducedRecord) (m : ℕ)
    → contains (uncounted counts ps) m ≡ (contains (map (λ p. p.id) ps) m && not (counted counts m))
unfolding uncounted
contains-uncounted counts [] m = refl
contains-uncounted counts (p ∷ ps) m =
    uncounted_one (get compare counts p.id) (counted counts m) m p.id (uncounted counts ps)
      (map (λ p. p.id) ps) (λ e. ap (counted counts) e) (contains-uncounted counts ps m)

contains-dedup_from :
    (prev m : ℕ) (xs : List ℕ)
    → (if m == prev then true else contains (dedup_from prev xs) m)
      ≡ (if m == prev then true else contains xs m)
unfolding dedup_from
contains-dedup_from prev m [] = refl
contains-dedup_from prev m (x ∷ xs) = ground (arith, contains-dedup_from x m xs)

contains-dedup : (xs : List ℕ) (m : ℕ) → contains (dedup xs) m ≡ contains xs m
unfolding dedup
contains-dedup [] m = refl
contains-dedup (x ∷ xs) m = contains-dedup_from x m xs

-- The ids of the report: those that were acked and are not among the consumed ones.
abbrev pub missing : List ProducedRecord → List ConsumedRecord → List ℕ
missing ps cs = dedup (sort (uncounted (count_all [] cs) ps))

pub contains-missing :
    (ps : List ProducedRecord) (cs : List ConsumedRecord) (m : ℕ)
    → contains (missing ps cs) m
      ≡ (contains (map (λ p. p.id) ps) m && not (contains (map (λ c. c.id) cs) m))
contains-missing ps cs m =
    contains-dedup (sort (uncounted (count_all [] cs) ps)) m
    ∙ contains-sort m (uncounted (count_all [] cs) ps)
    ∙ contains-uncounted (count_all [] cs) ps m
    ∙ ap (λ b. contains (map (λ p. p.id) ps) m && not b) (counted-count_all [] cs m ∙ ground arith)

-- Every acked id was consumed.
abbrev pub IsDelivered : List ProducedRecord → List ConsumedRecord → Type 0
IsDelivered ps cs = All (λ p. contains (map (λ c. c.id) cs) p.id ≡ true) ps
