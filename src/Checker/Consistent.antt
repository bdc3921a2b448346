-- ===== src/Checker/Consistent.antt =====
-- One id at each place of the logs.
use Prim.Native.Nat.{compare}
use replog.Prelude.{ℕ, ◌≡◌, ◌↔◌, refl, ap, ◌∙◌, Option, none, some, List, [], ◌∷◌, All, arith}
use replog.Prelude.Maps.{get, insert, compare_bytes}
use replog.Prelude.Maps.GetInsert.{IsKey, compare_bytes-IsKey}
use replog.Prelude.Maps.Pairs.{compare_pair, compare_pair-IsKey, compare-IsKey}
use replog.Prelude.Maps.Chains.{IsChained, IsNext, IsNext-splits, IsNext-joins, IsNext-empty}
use replog.Checker.{ConsumedRecord, Place, compare_places, place_of, conflict, divergences}

compare_places-IsKey : IsKey compare_places
compare_places-IsKey =
    compare_pair-IsKey compare_bytes (compare_pair compare compare) compare_bytes-IsKey
      (compare_pair-IsKey compare compare compare-IsKey compare-IsKey)

-- Each record has the id of all those before it at its place.
abbrev pub IsConsistent : List ConsumedRecord → Type 0
IsConsistent cs = IsChained place_of (λ c. c.id) (λ m n. m ≡ n) cs

abbrev IsKnown : List (Place × ℕ) → ConsumedRecord → Type 0
IsKnown ids d = IsNext place_of (λ c. c.id) (λ m n. m ≡ n) compare_places ids d

same_trans : (a b c : ℕ) → a ≡ b → b ≡ c → a ≡ c
same_trans a b c h k = h ∙ k

conflict-none :
    (o : Option ℕ) (id : ℕ) → conflict o id ≡ none → (first : ℕ) → o ≡ some first → first ≡ id
unfolding conflict
conflict-none none id h first e = ground arith
conflict-none (some f) id h first e = ground arith

none-conflict :
    (o : Option ℕ) (id : ℕ) → ((first : ℕ) → o ≡ some first → first ≡ id) → conflict o id ≡ none
unfolding conflict
none-conflict none id h = refl
none-conflict (some f) id h = let same : f ≡ id = h f refl in ground arith

-- `offset_ids` behind a record.
abbrev known : List (Place × ℕ) → ConsumedRecord → List (Place × ℕ)
known ids c = insert compare_places ids (place_of c) c.id

divergences-IsKnown :
    (ids : List (Place × ℕ)) (cs : List ConsumedRecord)
    → divergences ids cs ≡ []
    → All (IsKnown ids) cs × IsConsistent cs
unfolding divergences
divergences-IsKnown ids [] h = (tt, tt)
divergences-IsKnown ids (c ∷ cs) h =
    outcome (conflict (get compare_places ids (place_of c)) c.id) refl h
      (λ e. divergences-IsKnown (known ids c) cs e)
  where
    outcome :
        (o : Option ℕ)
        → conflict (get compare_places ids (place_of c)) c.id ≡ o
        → elim o [
          | none ↦ divergences (known ids c) cs
          | some first ↦
              (record { place = place_of c; first_id = first; id = c.id }) ∷ divergences ids cs
        ]
          ≡ []
        → (divergences (known ids c) cs ≡ [] → All (IsKnown (known ids c)) cs × IsConsistent cs)
        → All (IsKnown ids) (c ∷ cs) × IsConsistent (c ∷ cs)
    outcome none e none_left again =
        let first = conflict-none (get compare_places ids (place_of c)) c.id e in
        let rest = again none_left in
        let splits =
          IsNext-splits compare_places compare_places-IsKey place_of (λ d. d.id) (λ m n. m ≡ n)
            same_trans ids c cs first rest.0 in
        ((first, splits.0), (splits.1, rest.1))
    outcome (some first) e some_left again = ground arith

IsKnown-divergences :
    (ids : List (Place × ℕ)) (cs : List ConsumedRecord)
    → All (IsKnown ids) cs
    → IsConsistent cs
    → divergences ids cs ≡ []
unfolding divergences
IsKnown-divergences ids [] h r = refl
IsKnown-divergences ids (c ∷ cs) (h, hs) (a, r) =
    let joins =
      IsNext-joins compare_places compare_places-IsKey place_of (λ d. d.id) (λ m n. m ≡ n)
        same_trans ids c cs hs a in
    ap
      (λ o. elim o [
        | none ↦ divergences (known ids c) cs
        | some first ↦
            (record { place = place_of c; first_id = first; id = c.id }) ∷ divergences ids cs
      ])
      (none-conflict (get compare_places ids (place_of c)) c.id h)
    ∙ IsKnown-divergences (known ids c) cs joins r

-- The loop finds no divergence exactly where any two records at one place of a log have one id.
pub divergences-IsConsistent :
    (cs : List ConsumedRecord) → (divergences [] cs ≡ []) ↔ IsConsistent cs
divergences-IsConsistent cs = (
  λ h. (divergences-IsKnown [] cs h).1,
  IsKnown-divergences [] cs (
      IsNext-empty compare_places compare_places-IsKey place_of (λ d. d.id) (λ m n. m ≡ n)
        same_trans cs),
)
