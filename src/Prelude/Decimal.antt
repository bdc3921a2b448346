-- ===== src/Prelude/Decimal.antt =====
-- Unsigned numbers as text: what `format!` prints, and what `str::parse` reads. A text is the list of its
-- bytes.
use Prim.Native.Nat.{ℕ, zero, suc, ◌+◌, ◌-◌, ◌*◌, ◌/◌, ◌%◌, ◌^◌, ◌<◌, ◌≤◌}
use mathlib.Core.Path.{◌≡◌, refl, ap, ◌∙◌}
use mathlib.Core.Bool.{◌&&◌}
use mathlib.Core.Logic.{inl, inr}
use mathlib.Core.Option.{Option, none, some}
use mathlib.Core.List.{List, [], ◌∷◌, ◌++◌}
use native.Mathlib.Omega.{arith}
use replog.Prelude.Tests.{ltb, leb, ◌==◌, if◌then◌else◌, Bool-cases, if_cases}
use replog.Prelude.Lists.{length}

-- The decimal digits of `n` before `tail`.
unfoldable pub digits : ℕ → ℕ → List ℕ → List ℕ
digits zero n tail = tail
digits (suc fuel) n tail =
    let more = digits fuel (n / 10) ((48 + n % 10) ∷ tail) in
    if ltb n 10 then (48 + n) ∷ tail else more

-- The digits behind a value `n`, of a number below `bound`.
unfoldable pub parse_digits : ℕ → ℕ → List ℕ → Option ℕ
parse_digits bound n [] = some n
parse_digits bound n (c ∷ cs) =
    let rest = parse_digits bound (n * 10 + (c - 48)) cs in
    if leb 48 c && leb c 57 then if ltb (n * 10 + (c - 48)) bound then rest else none else none

-- `parse` of a `w`-bit number: one sign `+` may stand before the digits, and there is a digit.
unfoldable pub parse_uint : ℕ → List ℕ → Option ℕ
parse_uint w [] = none
parse_uint w (c ∷ []) = parse_digits (2 ^ w) 0 (c ∷ [])
parse_uint w (c ∷ d ∷ cs) =
    if c == 43 then parse_digits (2 ^ w) 0 (d ∷ cs) else parse_digits (2 ^ w) 0 (c ∷ d ∷ cs)

parse_digits-step :
    (bound n d : ℕ) (cs : List ℕ)
    → d < 10
    → n * 10 + d < bound
    → parse_digits bound n ((48 + d) ∷ cs) ≡ parse_digits bound (n * 10 + d) cs
unfolding parse_digits
parse_digits-step bound n d cs small fits =
    let back : n * 10 + ((48 + d) - 48) ≡ n * 10 + d = omega arith in
    ground (arith, ap (λ v. parse_digits bound v cs) back)

parse_digits-digits :
    (bound fuel n : ℕ) (tail : List ℕ)
    → n < bound
    → n < 10 ^ fuel
    → parse_digits bound 0 (digits fuel n tail) ≡ parse_digits bound n tail
unfolding digits
parse_digits-digits bound zero n tail fits enough =
    ap (λ v. parse_digits bound v tail) (omega arith)
parse_digits-digits bound (suc fuel) n tail fits enough = elim (Bool-cases (ltb n 10)) [
  | inl e ↦
      let one = parse_digits-step bound 0 n tail (ground arith) (omega arith) in
      let zero_less : parse_digits bound (0 * 10 + n) tail ≡ parse_digits bound n tail =
        ap (λ v. parse_digits bound v tail) (omega arith) in
      ground arith
  | inr e ↦
      let more =
        parse_digits-digits bound fuel (n / 10) ((48 + n % 10) ∷ tail) (omega arith)
          (omega arith) in
      let step = parse_digits-step bound (n / 10) (n % 10) tail (omega arith) (omega arith) in
      let whole : parse_digits bound (n / 10 * 10 + n % 10) tail ≡ parse_digits bound n tail =
        ap (λ v. parse_digits bound v tail) (omega arith) in
      ground arith
]

abbrev IsDigit : ℕ → Type 0
IsDigit c = (48 ≤ c) × (c ≤ 57)

-- There is a digit, and there are only digits.
abbrev pub IsDecimal : List ℕ → Type 0
IsDecimal [] = Unit {0}
IsDecimal (c ∷ cs) = IsDigit c × IsDecimal cs

pub digits-append :
    (fuel n : ℕ) (xs ys : List ℕ) → digits fuel n (xs ++ ys) ≡ digits fuel n xs ++ ys
unfolding digits
digits-append zero n xs ys = refl
digits-append (suc fuel) n xs ys =
    ground (arith, digits-append fuel (n / 10) ((48 + n % 10) ∷ xs) ys)

pub digits-IsDecimal : (fuel n : ℕ) (xs : List ℕ) → IsDecimal xs → IsDecimal (digits fuel n xs)
unfolding digits
digits-IsDecimal zero n xs h = h
digits-IsDecimal (suc fuel) n xs h =
    if_cases IsDecimal (ltb n 10) ((48 + n) ∷ xs) _ (λ e. ((omega arith, ground arith), h))
      (λ e. digits-IsDecimal fuel (n / 10) ((48 + n % 10) ∷ xs) ((omega arith, omega arith), h))

digits-some : (fuel n : ℕ) (xs : List ℕ) → 0 < fuel + length xs → 0 < length (digits fuel n xs)
unfolding digits
digits-some zero n xs h = omega arith
digits-some (suc fuel) n xs h =
    if_cases (λ ds. 0 < length ds) (ltb n 10) ((48 + n) ∷ xs) _ (λ e. omega arith)
      (λ e. digits-some fuel (n / 10) ((48 + n % 10) ∷ xs) (omega arith))

parse_uint_unsigned :
    (w : ℕ) (xs : List ℕ)
    → IsDecimal xs
    → 0 < length xs
    → parse_uint w xs ≡ parse_digits (2 ^ w) 0 xs
unfolding parse_uint
parse_uint_unsigned w [] h some_there = elim some_there [ ]
parse_uint_unsigned w (c ∷ []) h some_there = refl
parse_uint_unsigned w (c ∷ d ∷ cs) ((low, high), h) some_there = ground arith

-- A number that fits is read from its digits.
pub parse_uint-digits : (w n : ℕ) → n < 2 ^ w → n < 10 ^ 20 → parse_uint w (digits 20 n []) ≡ some n
unfolding parse_digits
parse_uint-digits w n fits enough =
    parse_uint_unsigned w (digits 20 n []) (digits-IsDecimal 20 n [] tt)
      (digits-some 20 n [] (omega arith))
    ∙ parse_digits-digits (2 ^ w) 20 n [] fits enough
