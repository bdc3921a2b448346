-- ===== src/Prelude/Maps.antt =====
-- Maps as the lists of their entries in order of the keys, and the order of byte strings.
pub mod Laws
pub mod Sorted
pub mod GetInsert
pub mod Pairs
pub mod Chains
pub mod Orders
use Prim.Native.Nat.{ℕ, compare, Ordering}
use mathlib.Core.Bool.{Bool, true, false, ◌&&◌}
use mathlib.Core.Option.{Option, none, some}
use mathlib.Core.List.{List, [], ◌∷◌}
use mathlib.Core.Path.{◌≡◌}
use replog.Prelude.Lists.{All}
use replog.Prelude.Tests.{◌==◌, if◌then◌else◌}

-- The order of byte strings.
abbrev pub compare_bytes : List ℕ → List ℕ → Ordering
compare_bytes [] [] = Ordering.eq
compare_bytes [] (y ∷ ys) = Ordering.lt
compare_bytes (x ∷ xs) [] = Ordering.gt
compare_bytes (x ∷ xs) (y ∷ ys) = elim (compare x y) [
  | Ordering.lt ↦ Ordering.lt
  | Ordering.eq ↦ compare_bytes xs ys
  | Ordering.gt ↦ Ordering.gt
]

-- Whether two lists of numbers are the same.
abbrev pub same : List ℕ → List ℕ → Bool
same [] [] = true
same [] (y ∷ ys) = false
same (x ∷ xs) [] = false
same (x ∷ xs) (y ∷ ys) = x == y && same xs ys

module _ {K V : Type 0} (cmp : K → K → Ordering) where
  abbrev pub get : List (K × V) → K → Option V
  get [] k = none
  get ((k', v) ∷ entries) k = elim (cmp k k') [ Ordering.eq ↦ some v | _ ↦ get entries k ]

  abbrev pub insert : List (K × V) → K → V → List (K × V)
  insert [] k v = (k, v) ∷ []
  insert ((k', w) ∷ entries) k v = elim (cmp k k') [
    | Ordering.lt ↦ (k, v) ∷ (k', w) ∷ entries
    | Ordering.eq ↦ (k, v) ∷ entries
    | Ordering.gt ↦ (k', w) ∷ insert entries k v
  ]

  -- The entries put in one by one.
  abbrev pub insert_all : List (K × V) → List (K × V) → List (K × V)
  insert_all entries [] = entries
  insert_all entries (e ∷ es) = insert_all (insert entries e.0 e.1) es

  -- Entries each of whose keys is above those before it.
  abbrev pub IsSorted : List (K × V) → Type 0
  IsSorted [] = Unit {0}
  IsSorted (e ∷ es) = All (λ x. cmp x.0 e.0 ≡ Ordering.gt) es × IsSorted es

-- `xs.contains(&n)`
abbrev pub contains : List ℕ → ℕ → Bool
contains [] n = false
contains (x ∷ xs) n = if n == x then true else contains xs n

-- The elements of `xs` that `ys` contains.
abbrev pub retain : List ℕ → List ℕ → List ℕ
retain ys [] = []
retain ys (x ∷ xs) = if contains ys x then x ∷ retain ys xs else retain ys xs

-- The first element of `xs` that `ys` contains.
abbrev pub find_in : List ℕ → List ℕ → Option ℕ
find_in ys [] = none
find_in ys (x ∷ xs) = if contains ys x then some x else find_in ys xs

-- Whether `ys` contains every element of `xs`.
abbrev pub contains_all : List ℕ → List ℕ → Bool
contains_all ys [] = true
contains_all ys (x ∷ xs) = contains ys x && contains_all ys xs
