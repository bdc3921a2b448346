-- ===== src/Prelude/Maps/Laws.antt =====
-- Lemmas on the tests and maps of Prelude.Maps.
use Prim.Native.Nat.{ℕ, Ordering}
use mathlib.Core.Path.{◌≡◌, refl, sym, subst}
use mathlib.Core.Bool.{true}
use mathlib.Core.Logic.{inl, inr}
use mathlib.Core.Option.{some, some-injective}
use mathlib.Core.List.{List, [], ◌∷◌}
use native.Mathlib.Omega.{arith}
use replog.Prelude.Tests.{◌==◌, ==-refl, Bool-cases}
use replog.Prelude.Lists.{All}
use replog.Prelude.Maps.{get, insert, contains, retain, find_in, contains_all, same}

pub All-contains : (P : ℕ → Type 0) (xs : List ℕ) (n : ℕ) → All P xs → contains xs n ≡ true → P n
All-contains P [] n h c = ground arith
All-contains P (x ∷ xs) n (h, hs) c = elim (Bool-cases (n == x)) [
  | inl e ↦ subst P (sym (ground arith)) h
  | inr f ↦ All-contains P xs n hs (ground arith)
]

pub contains_all-contains :
    (ys xs : List ℕ) (n : ℕ)
    → contains_all ys xs ≡ true
    → contains xs n ≡ true
    → contains ys n ≡ true
contains_all-contains ys [] n h c = ground arith
contains_all-contains ys (x ∷ xs) n h c = ground (arith, contains_all-contains ys xs n)

contains_all-cons :
    (ys xs : List ℕ) (y : ℕ) → contains_all ys xs ≡ true → contains_all (y ∷ ys) xs ≡ true
contains_all-cons ys [] y h = refl
contains_all-cons ys (x ∷ xs) y h = ground (arith, contains_all-cons ys xs y)

pub contains_all_refl : (xs : List ℕ) → contains_all xs xs ≡ true
contains_all_refl [] = refl
contains_all_refl (x ∷ xs) = rw (==-refl, contains_all-cons xs xs x (contains_all_refl xs)) refl

pub contains_all-retain :
    (zs ys xs : List ℕ) → contains_all zs xs ≡ true → contains_all zs (retain ys xs) ≡ true
contains_all-retain zs ys [] h = refl
contains_all-retain zs ys (x ∷ xs) h = ground (arith, contains_all-retain zs ys xs)

pub contains-retain :
    (ys xs : List ℕ) (n : ℕ)
    → contains xs n ≡ true
    → contains ys n ≡ true
    → contains (retain ys xs) n ≡ true
contains-retain ys [] n h c = h
contains-retain ys (x ∷ xs) n h c = ground (arith, contains-retain ys xs n)

pub contains-find_in :
    (ys xs : List ℕ) (n : ℕ)
    → find_in ys xs ≡ some n
    → (contains xs n ≡ true) × (contains ys n ≡ true)
contains-find_in ys [] n h = ground arith
contains-find_in ys (x ∷ xs) n h = ground (arith, contains-find_in ys xs n)

module _ {K V : Type 0} (cmp : K → K → Ordering) (P : V → Type 0) where
  -- A property of the value of every entry.
  pub All-get :
      (entries : List (K × V)) (k : K) (v : V)
      → All (λ e. P e.1) entries
      → get cmp entries k ≡ some v
      → P v
  All-get [] k v h g = ground arith
  All-get ((k', w) ∷ entries) k v (h, hs) g =
      elim (cmp k k')
          as (λ o. elim o [ Ordering.eq ↦ some w | _ ↦ get cmp entries k ] ≡ some v → P v) [
            | Ordering.lt ↦ All-get entries k v hs
            | Ordering.eq ↦ λ e. subst P (some-injective w v e) h
            | Ordering.gt ↦ All-get entries k v hs
          ]
        g

module _ {K V : Type 0} (cmp : K → K → Ordering) (P : K × V → Type 0) where
  pub All-insert :
      (entries : List (K × V)) (k : K) (v : V)
      → All P entries
      → P (k, v)
      → All P (insert cmp entries k v)
  All-insert [] k v h p = (p, tt)
  All-insert ((k', w) ∷ entries) k v (h, hs) p =
      elim (cmp k k')
        as (λ o. All P (elim o [
          | Ordering.lt ↦ (k, v) ∷ (k', w) ∷ entries
          | Ordering.eq ↦ (k, v) ∷ entries
          | Ordering.gt ↦ (k', w) ∷ insert cmp entries k v
        ])) [
          | Ordering.lt ↦ (p, (h, hs))
          | Ordering.eq ↦ (p, hs)
          | Ordering.gt ↦ (h, All-insert entries k v hs p)
        ]

pub same_refl : (xs : List ℕ) → same xs xs ≡ true
same_refl [] = refl
same_refl (x ∷ xs) = ground (arith, same_refl xs)
