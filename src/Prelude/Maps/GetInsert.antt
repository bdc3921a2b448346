-- ===== src/Prelude/Maps/GetInsert.antt =====
-- Looking up what was put into a map.
use Prim.Native.Nat.{ℕ, Ordering}
use mathlib.Core.Path.{◌≡◌, refl}
use mathlib.Core.Bool.{Bool, true, false}
use mathlib.Core.Option.{some}
use mathlib.Core.List.{List, [], ◌∷◌}
use native.Mathlib.Omega.{arith}
use replog.Prelude.Maps.{get, insert, compare_bytes}

abbrev pub is_eq : Ordering → Bool
is_eq Ordering.lt = false
is_eq Ordering.eq = true
is_eq Ordering.gt = false

-- A comparison that says when two keys are the same.
pub record IsKey {K : Type 0} (cmp : K → K → Ordering) : Type 0 where
  pub same : (k : K) → cmp k k ≡ Ordering.eq
  pub sound : (k k' : K) → cmp k k' ≡ Ordering.eq → k ≡ k'

compare_bytes-same : (xs : List ℕ) → compare_bytes xs xs ≡ Ordering.eq
compare_bytes-same [] = refl
compare_bytes-same (x ∷ xs) = ground (arith, compare_bytes-same xs)

compare_bytes_sound : (xs ys : List ℕ) → compare_bytes xs ys ≡ Ordering.eq → xs ≡ ys
compare_bytes_sound [] [] h = refl
compare_bytes_sound [] (y ∷ ys) h = ground arith
compare_bytes_sound (x ∷ xs) [] h = ground arith
compare_bytes_sound (x ∷ xs) (y ∷ ys) h = ground (arith, compare_bytes_sound xs ys)

pub compare_bytes-IsKey : IsKey compare_bytes
compare_bytes-IsKey = record { same = compare_bytes-same; sound = compare_bytes_sound }

module _ {K V : Type 0} (cmp : K → K → Ordering) (key : IsKey cmp) where
  -- A look at the first entry.
  get_eq :
      (entries : List (K × V)) (k k' : K) (v : V)
      → cmp k k' ≡ Ordering.eq
      → get cmp ((k', v) ∷ entries) k ≡ some v
  get_eq entries k k' v e = rw (get, e) refl

  get_skip :
      (entries : List (K × V)) (k k' : K) (v : V)
      → is_eq (cmp k k') ≡ false
      → get cmp ((k', v) ∷ entries) k ≡ get cmp entries k
  get_skip entries k k' v e = ground arith

  pub get-insert_same :
      (entries : List (K × V)) (k : K) (v : V) → get cmp (insert cmp entries k v) k ≡ some v
  get-insert_same [] k v = get_eq [] k k v (key.same k)
  get-insert_same ((c, w) ∷ entries) k v = ground (arith, get-insert_same entries k v, key.same k)

  pub get-insert_other :
      (entries : List (K × V)) (k : K) (v : V) (k' : K)
      → is_eq (cmp k' k) ≡ false
      → get cmp (insert cmp entries k v) k' ≡ get cmp entries k'
  get-insert_other [] k v k' h = get_skip [] k' k v h
  get-insert_other ((c, w) ∷ entries) k v k' h =
      ground (arith, get-insert_other entries k v k' h, key.sound k c)
