-- ===== src/Prelude/Sort.antt =====
-- Sorting numbers, by insertion.
use Prim.Native.Nat.{ℕ}
use mathlib.Core.Path.{◌≡◌, refl, ap, ◌∙◌}
use mathlib.Core.Bool.{true}
use mathlib.Core.List.{List, [], ◌∷◌}
use native.Mathlib.Omega.{arith}
use replog.Prelude.Tests.{leb, ◌==◌, if◌then◌else◌}
use replog.Prelude.Maps.{contains}

unfoldable pub put_in_order : ℕ → List ℕ → List ℕ
put_in_order n [] = n ∷ []
put_in_order n (x ∷ xs) = let rest = put_in_order n xs in if leb n x then n ∷ x ∷ xs else x ∷ rest

-- `sort_unstable`
unfoldable pub sort : List ℕ → List ℕ
unfolding put_in_order
sort [] = []
sort (x ∷ xs) = put_in_order x (sort xs)

contains-put_in_order :
    (n m : ℕ) (xs : List ℕ)
    → contains (put_in_order n xs) m ≡ (if m == n then true else contains xs m)
unfolding put_in_order
contains-put_in_order n m [] = refl
contains-put_in_order n m (x ∷ xs) = ground (arith, contains-put_in_order n m xs)

pub contains-sort : (m : ℕ) (xs : List ℕ) → contains (sort xs) m ≡ contains xs m
unfolding sort
contains-sort m [] = refl
contains-sort m (x ∷ xs) =
    contains-put_in_order x m (sort xs) ∙ ap (λ b. if m == x then true else b) (contains-sort m xs)
