-- ===== src/Checker/Gaps/Holes.antt =====
-- A strictly rising list of offsets has a hole exactly where it is shorter than its range.
use replog.Prelude.{
  ℕ, zero, suc, ◌+◌, ◌≤◌, ◌<◌, ◌≡◌, refl, sym, ◌∙◌, subst, true, false, none, List, [], ◌∷◌, length,
  arith, Bool-cases, inl, inr, ltb, ◌==◌, if_cases, if◌then◌else◌,
}
use replog.Prelude.Maps.{contains}
use replog.Checker.{is_empty}
use replog.Checker.Gaps.{put, largest, hole_from}

-- The list rises strictly, from `start` on and below `end`.
abbrev pub IsWithin : ℕ → ℕ → List ℕ → Type 0
IsWithin start end [] = start ≤ end
IsWithin start end (x ∷ xs) = (start ≤ x) × IsWithin (x + 1) end xs

-- The list rises strictly, from `start` on.
abbrev pub IsRisingFrom : ℕ → List ℕ → Type 0
IsRisingFrom start [] = Unit {0}
IsRisingFrom start (x ∷ xs) = (start ≤ x) × IsRisingFrom (x + 1) xs

pub put-IsRisingFrom :
    (start o : ℕ) (xs : List ℕ) → IsRisingFrom start xs → start ≤ o → IsRisingFrom start (put xs o)
unfolding put
put-IsRisingFrom start o [] h le = (le, tt)
put-IsRisingFrom start o (x ∷ xs) (first, rest) le =
    let after : x + 1 ≤ o → IsRisingFrom (x + 1) (put xs o) = put-IsRisingFrom (x + 1) o xs rest in
    if_cases (IsRisingFrom start) (ltb o x) (o ∷ x ∷ xs) _ (λ e. (le, (ground arith, rest)))
      (λ e.
        if_cases (IsRisingFrom start) (o == x) (x ∷ xs) (x ∷ put xs o) (λ f. (first, rest))
          (λ f. (first, after (ground arith))))

pub contains-put :
    (xs : List ℕ) (o p : ℕ) → contains (put xs o) p ≡ (if p == o then true else contains xs p)
unfolding put
contains-put [] o p = refl
contains-put (x ∷ xs) o p = ground (arith, contains-put xs o p)

IsWithin-le : (start end : ℕ) (xs : List ℕ) → IsWithin start end xs → start ≤ end
IsWithin-le start end [] h = h
IsWithin-le start end (x ∷ xs) (le, h) =
    let rest : x + 1 ≤ end = IsWithin-le (x + 1) end xs h in omega arith

pub largest-IsWithin :
    (start x : ℕ) (xs : List ℕ)
    → IsRisingFrom start (x ∷ xs)
    → IsWithin start (largest x xs + 1) (x ∷ xs)
unfolding largest
largest-IsWithin start x [] (le, h) = (le, omega arith)
largest-IsWithin start x (y ∷ ys) (le, h) =
    let rest = largest-IsWithin (x + 1) y ys h in
    let up : x + 1 ≤ largest y ys + 1 = IsWithin-le (x + 1) (largest y ys + 1) (y ∷ ys) rest in
    let same : (if ltb x (largest y ys) then largest y ys else x) ≡ largest y ys = ground arith in
    (le, subst (λ m. IsWithin (x + 1) (m + 1) (y ∷ ys)) (sym same) rest)

contains-before :
    (start end o : ℕ) (xs : List ℕ) → IsWithin start end xs → o < start → contains xs o ≡ false
contains-before start end o [] h lt = refl
contains-before start end o (x ∷ xs) (le, h) lt =
    let rest : contains xs o ≡ false = contains-before (x + 1) end o xs h (omega arith) in
    ground arith

length-IsWithin : (start end : ℕ) (xs : List ℕ) → IsWithin start end xs → start + length xs ≤ end
length-IsWithin start end [] h = omega arith
length-IsWithin start end (x ∷ xs) (le, h) =
    let rest : x + 1 + length xs ≤ end = length-IsWithin (x + 1) end xs h in omega arith

pub is_empty-put : (xs : List ℕ) (o : ℕ) → is_empty (put xs o) ≡ false
unfolding put
is_empty-put [] o = refl
is_empty-put (x ∷ xs) o = ground arith

-- A list as long as its range has every offset of it.
pub contains-full :
    (start end o : ℕ) (xs : List ℕ)
    → IsWithin start end xs
    → start + length xs ≡ end
    → start ≤ o
    → o < end
    → contains xs o ≡ true
contains-full start end o [] h full le lt = ground arith
contains-full start end o (x ∷ xs) (first, h) full le lt =
    let most : x + 1 + length xs ≤ end = length-IsWithin (x + 1) end xs h in
    let here : x ≡ start = omega arith in
    elim (Bool-cases (o == x)) [
      | inl e ↦ ground arith
      | inr e ↦
          let rest : contains xs o ≡ true =
            contains-full (x + 1) end o xs h (omega arith) (ground arith) lt in
          ground arith
    ]

hole_from-skip :
    (n start x : ℕ) (xs : List ℕ) → x < start → hole_from n start (x ∷ xs) ≡ hole_from n start xs
unfolding hole_from
hole_from-skip zero start x xs lt = refl
hole_from-skip (suc n) start x xs lt =
    let rest = hole_from-skip n (start + 1) x xs (omega arith) in ground arith

-- A list without a hole is as long as its range.
pub hole_from-none :
    (n start : ℕ) (xs : List ℕ)
    → IsWithin start (start + n) xs
    → hole_from n start xs ≡ none
    → length xs ≡ n
unfolding hole_from
hole_from-none zero start xs h none_left =
    let most : start + length xs ≤ start + 0 = length-IsWithin start (start + 0) xs h in omega arith
hole_from-none (suc n) start [] h none_left = ground arith
hole_from-none (suc n) start (x ∷ xs) (le, h) none_left =
    let past : start < x → contains xs start ≡ false =
      λ lt. contains-before (x + 1) (start + suc n) start xs h (omega arith) in
    elim (Bool-cases (start == x)) [
      | inl e ↦
          let here : x ≡ start = ground arith in
          let rest : hole_from n (start + 1) (x ∷ xs) ≡ none = ground arith in
          let h' : IsWithin (start + 1) (start + 1 + n) xs =
            subst (λ a. IsWithin a (start + 1 + n) xs) (omega arith)
              (subst (λ b. IsWithin (x + 1) b xs) (omega arith) h) in
          let len : length xs ≡ n =
            hole_from-none n (start + 1) xs h'
              (sym (hole_from-skip n (start + 1) x xs (omega arith)) ∙ rest) in
          omega arith
      | inr e ↦ let no_start : contains xs start ≡ false = past (ground arith) in ground arith
    ]

-- Where every offset of a range is in the list, there is no hole.
pub hole_from-full :
    (n start : ℕ) (xs : List ℕ)
    → ((o : ℕ) → start ≤ o → o < start + n → contains xs o ≡ true)
    → hole_from n start xs ≡ none
unfolding hole_from
hole_from-full zero start xs h = refl
hole_from-full (suc n) start xs h =
    let here : contains xs start ≡ true = h start (omega arith) (omega arith) in
    let rest : hole_from n (start + 1) xs ≡ none =
      hole_from-full n (start + 1) xs (λ o le lt. h o (omega arith) (omega arith)) in
    ground arith

pub contains-largest : (x : ℕ) (xs : List ℕ) → contains (x ∷ xs) (largest x xs) ≡ true
unfolding largest
contains-largest x [] = ground arith
contains-largest x (y ∷ ys) = ground (arith, contains-largest y ys)
