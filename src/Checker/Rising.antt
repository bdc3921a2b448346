-- ===== src/Checker/Rising.antt =====
-- The monotonicity of the offsets in each stream.
use Prim.Native.Nat.{compare}
use replog.Prelude.{
  ℕ, ◌<◌, ◌≡◌, ◌↔◌, refl, ap, ◌∙◌, Option, none, some, List, [], ◌∷◌, ◌++◌, All, arith,
}
use replog.Prelude.Maps.{get, insert, compare_bytes}
use replog.Prelude.Maps.GetInsert.{IsKey, compare_bytes-IsKey}
use replog.Prelude.Maps.Pairs.{compare_pair, compare_pair-IsKey, compare-IsKey}
use replog.Prelude.Maps.Chains.{IsChained, IsNext, IsNext-splits, IsNext-joins, IsNext-empty}
use replog.Checker.{ConsumedRecord, Stream, compare_streams, stream_of, rewind, rewinds, Violation}

compare_streams-IsKey : IsKey compare_streams
compare_streams-IsKey =
    compare_pair-IsKey compare_bytes (compare_pair compare (compare_pair compare_bytes compare))
      compare_bytes-IsKey
      (compare_pair-IsKey compare (compare_pair compare_bytes compare) compare-IsKey
        (compare_pair-IsKey compare_bytes compare compare_bytes-IsKey compare-IsKey))

-- Each record has a larger offset than all those before it in its stream.
abbrev pub IsRising : List ConsumedRecord → Type 0
IsRising cs = IsChained stream_of (λ c. c.offset) (λ m n. m < n) cs

abbrev IsAbove : List (Stream × ℕ) → ConsumedRecord → Type 0
IsAbove last_seen d = IsNext stream_of (λ c. c.offset) (λ m n. m < n) compare_streams last_seen d

below_trans : (a b c : ℕ) → a < b → b < c → a < c
below_trans a b c h k = omega (arith, h, k)

rewind-above :
    (c : ConsumedRecord) (o : Option ℕ)
    → rewind c o ≡ []
    → (prev : ℕ) → o ≡ some prev
    → prev < c.offset
unfolding rewind
rewind-above c none h prev e = ground arith
rewind-above c (some p) h prev e = ground arith

above-rewind :
    (c : ConsumedRecord) (o : Option ℕ)
    → ((prev : ℕ) → o ≡ some prev → prev < c.offset)
    → rewind c o ≡ []
unfolding rewind
above-rewind c none h = refl
above-rewind c (some p) h = let above : p < c.offset = h p refl in ground arith

append_empty : (xs ys : List Violation) → xs ++ ys ≡ [] → (xs ≡ []) × (ys ≡ [])
append_empty [] ys h = (refl, h)
append_empty (x ∷ xs) ys h = ground arith

-- `last_seen` behind a record.
abbrev seen : List (Stream × ℕ) → ConsumedRecord → List (Stream × ℕ)
seen last_seen c = insert compare_streams last_seen (stream_of c) c.offset

rewinds-IsAbove :
    (last_seen : List (Stream × ℕ)) (cs : List ConsumedRecord)
    → rewinds last_seen cs ≡ []
    → All (IsAbove last_seen) cs × IsRising cs
unfolding rewinds
rewinds-IsAbove last_seen [] h = (tt, tt)
rewinds-IsAbove last_seen (c ∷ cs) h =
    let o = get compare_streams last_seen (stream_of c) in
    let parts = append_empty (rewind c o) (rewinds (seen last_seen c) cs) h in
    let first = rewind-above c o parts.0 in
    let rest = rewinds-IsAbove (seen last_seen c) cs parts.1 in
    let splits =
      IsNext-splits compare_streams compare_streams-IsKey stream_of (λ d. d.offset) (λ m n. m < n)
        below_trans last_seen c cs first rest.0 in
    ((first, splits.0), (splits.1, rest.1))

IsAbove-rewinds :
    (last_seen : List (Stream × ℕ)) (cs : List ConsumedRecord)
    → All (IsAbove last_seen) cs
    → IsRising cs
    → rewinds last_seen cs ≡ []
unfolding rewinds
IsAbove-rewinds last_seen [] h r = refl
IsAbove-rewinds last_seen (c ∷ cs) (h, hs) (a, r) =
    let joins =
      IsNext-joins compare_streams compare_streams-IsKey stream_of (λ d. d.offset) (λ m n. m < n)
        below_trans last_seen c cs hs a in
    ap (λ vs. vs ++ rewinds (seen last_seen c) cs)
      (above-rewind c (get compare_streams last_seen (stream_of c)) h)
    ∙ IsAbove-rewinds (seen last_seen c) cs joins r

-- The loop finds no rewind exactly where, in each stream, each offset is above all those before it.
pub rewinds-IsRising : (cs : List ConsumedRecord) → (rewinds [] cs ≡ []) ↔ IsRising cs
rewinds-IsRising cs = (
  λ h. (rewinds-IsAbove [] cs h).1,
  IsAbove-rewinds [] cs (
      IsNext-empty compare_streams compare_streams-IsKey stream_of (λ d. d.offset) (λ m n. m < n)
        below_trans cs),
)
