-- ===== src/Harness/Rng.antt =====
-- src/harness/rng.rs: the random source SplitMix64. A state is its 64-bit word.
use Prim.Native.Nat.{bit_xor}
use replog.Prelude.{
  ℕ, zero, suc, ◌+◌, ◌-◌, ◌*◌, ◌/◌, ◌%◌, ◌^◌, ◌<◌, ◌≤◌, ◌≡◌, refl, Option, none, some, List, [],
  ◌∷◌, length, get_elem?, arith, ltb, lt→ltb, if◌then◌else◌, ap, ◌∙◌,
}

-- `wrapping_add` and `wrapping_mul`
unfoldable pub wrapping_add : ℕ → ℕ → ℕ
wrapping_add a b = (a + b) % 2 ^ 64

unfoldable pub wrapping_mul : ℕ → ℕ → ℕ
wrapping_mul a b = (a * b) % 2 ^ 64

-- The new state, and the number.
unfoldable pub next_u64 : ℕ → ℕ × ℕ
unfolding wrapping_add wrapping_mul
next_u64 state =
    let state' = wrapping_add state 0x9E37_79B9_7F4A_7C15 in
    let y = wrapping_mul (bit_xor state' (state' / 2 ^ 30)) 0xBF58_476D_1CE4_E5B9 in
    let z = wrapping_mul (bit_xor y (y / 2 ^ 27)) 0x94D0_49BB_1331_11EB in
    (state', bit_xor z (z / 2 ^ 31))

-- `range`; `none` is the panic of its assertion.
unfoldable pub range : ℕ → ℕ → ℕ → Option (ℕ × ℕ)
range state lo hi =
    let drawn = next_u64 state in
    if ltb lo hi then some (drawn.0, lo + drawn.1 % (hi - lo)) else none

-- `pick`, on the result of the draw; an index out of range is a panic too.
unfoldable pub pick_from : {A : Type 0} → List A → Option (ℕ × ℕ) → Option (ℕ × A)
pick_from xs none = none
pick_from xs (some (state, i)) = elim (get_elem? xs i) [ none ↦ none | some x ↦ some (state, x) ]

unfoldable pub pick : {A : Type 0} → ℕ → List A → Option (ℕ × A)
unfolding pick_from
pick state xs = pick_from xs (range state 0 (length xs))

get_elem?-lt :
    {A : Type 0} (xs : List A) (i : ℕ) → i < length xs → (x : A) × (get_elem? xs i ≡ some x)
get_elem?-lt [] i h = elim h [ ]
get_elem?-lt (x ∷ xs) zero h = (x, refl)
get_elem?-lt (x ∷ xs) (suc i) h = get_elem?-lt xs i (omega arith)

-- A draw from a range that is not empty is in the range.
pub range_bounded :
    (state lo hi : ℕ)
    → lo < hi
    → (r : ℕ) × (range state lo hi ≡ some ((next_u64 state).0, r)) × (lo ≤ r) × (r < hi)
unfolding range
range_bounded state lo hi h =
    let n = (next_u64 state).1 in
    (lo + n % (hi - lo), rw (lt→ltb lo hi h) refl, omega arith, below lo hi n h)
  where
    below : (lo hi n : ℕ) → lo < hi → lo + n % (hi - lo) < hi
    below lo hi n h = grind arith

-- A draw from a list that is not empty never panics.
pub pick_total :
    {A : Type 0} (state : ℕ) (xs : List A)
    → 0 < length xs
    → (x : A) × (pick state xs ≡ some ((next_u64 state).0, x))
unfolding pick pick_from
pick_total state xs h =
    let drawn = range_bounded state 0 (length xs) h in
    let found = get_elem?-lt xs drawn.0 drawn.3 in
    (found.0, ap (pick_from xs) drawn.1 ∙ found_pick xs (next_u64 state).0 drawn.0 found.0 found.1)
  where
    found_pick :
        {A : Type 0} (xs : List A) (s i : ℕ) (x : A)
        → get_elem? xs i ≡ some x
        → pick_from xs (some (s, i)) ≡ some (s, x)
    found_pick xs s i x e = ap (λ o. elim o [ none ↦ none | some y ↦ some (s, y) ]) e
