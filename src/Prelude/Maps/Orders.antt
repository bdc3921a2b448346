-- ===== src/Prelude/Maps/Orders.antt =====
-- Putting an entry into a map keeps its entries in order, so that each of them is found.
use Prim.Native.Nat.{ℕ, compare, Ordering}
use mathlib.Core.Path.{◌≡◌, refl, sym, subst}
use mathlib.Core.Option.{some}
use mathlib.Core.List.{List, [], ◌∷◌}
use native.Mathlib.Omega.{arith}
use replog.Prelude.Lists.{All}
use replog.Prelude.Maps.{get, insert, compare_bytes, IsSorted}
use replog.Prelude.Maps.GetInsert.{IsKey, compare_bytes-IsKey}
use replog.Prelude.Maps.Pairs.{compare_pair, compare_pair-IsKey, compare-IsKey}
use replog.Prelude.Maps.Laws.{All-insert}

-- A comparison of keys that is an order.
pub record IsOrder {K : Type 0} (cmp : K → K → Ordering) : Type 0 where
  pub key : IsKey cmp
  pub flips : (j k : K) → cmp j k ≡ Ordering.lt → cmp k j ≡ Ordering.gt
  pub above : (j k l : K) → cmp j k ≡ Ordering.gt → cmp k l ≡ Ordering.gt → cmp j l ≡ Ordering.gt

pub compare-IsOrder : IsOrder compare
compare-IsOrder = record {
  key = compare-IsKey;
  flips = λ j k h. ground arith;
  above = λ j k l h g. ground arith;
}

bytes_flip :
    (xs ys : List ℕ) → compare_bytes xs ys ≡ Ordering.lt → compare_bytes ys xs ≡ Ordering.gt
bytes_flip [] [] h = ground arith
bytes_flip [] (y ∷ ys) h = refl
bytes_flip (x ∷ xs) [] h = ground arith
bytes_flip (x ∷ xs) (y ∷ ys) h = ground (arith, bytes_flip xs ys)

bytes_above :
    (xs ys zs : List ℕ)
    → compare_bytes xs ys ≡ Ordering.gt
    → compare_bytes ys zs ≡ Ordering.gt
    → compare_bytes xs zs ≡ Ordering.gt
bytes_above [] ys zs h g = ground arith
bytes_above (x ∷ xs) [] zs h g = ground arith
bytes_above (x ∷ xs) (y ∷ ys) [] h g = refl
bytes_above (x ∷ xs) (y ∷ ys) (z ∷ zs) h g = ground (arith, bytes_above xs ys zs)

pub compare_bytes-IsOrder : IsOrder compare_bytes
compare_bytes-IsOrder = record {
  key = compare_bytes-IsKey;
  flips = bytes_flip;
  above = bytes_above;
}

module _ {J K : Type 0} (cmp : J → J → Ordering) (cmp' : K → K → Ordering) (order : IsOrder cmp)
    (order' : IsOrder cmp') where
  pair_above :
      (x y z : J × K)
      → compare_pair cmp cmp' x y ≡ Ordering.gt
      → compare_pair cmp cmp' y z ≡ Ordering.gt
      → compare_pair cmp cmp' x z ≡ Ordering.gt
  pair_above (a, a') (b, b') (c, c') h g =
      ground
        (arith, order.above a b c, order'.above a' b' c', order.key.sound a b, order.key.sound b c)

  pub compare_pair-IsOrder : IsOrder (compare_pair cmp cmp')
  compare_pair-IsOrder = record {
    key = compare_pair-IsKey cmp cmp' order.key order'.key;
    flips = λ (a, a') (b, b') h.
        ground (arith, order.flips a b, order'.flips a' b', order.key.sound a b, order.key.same a);
    above = pair_above;
  }

module _ {K V : Type 0} (cmp : K → K → Ordering) (order : IsOrder cmp) where
  -- The entries whose keys are above a key.
  abbrev AllAbove : K → List (K × V) → Type 0
  AllAbove k entries = All (λ x. cmp x.0 k ≡ Ordering.gt) entries

  AllAbove-below :
      (j k : K) (entries : List (K × V))
      → cmp k j ≡ Ordering.gt
      → AllAbove k entries
      → AllAbove j entries
  AllAbove-below j k [] h a = tt
  AllAbove-below j k (e ∷ es) h (a, rest) = (order.above e.0 k j a h, AllAbove-below j k es h rest)

  pub insert-IsSorted :
      (entries : List (K × V)) (k : K) (v : V)
      → IsSorted cmp entries
      → IsSorted cmp (insert cmp entries k v)
  insert-IsSorted [] k v h = (tt, tt)
  insert-IsSorted ((k', w) ∷ entries) k v (above, rest) =
      elim (cmp k k')
          as (λ o.
            cmp k k' ≡ o
            → IsSorted cmp (elim o [
              | Ordering.lt ↦ (k, v) ∷ (k', w) ∷ entries
              | Ordering.eq ↦ (k, v) ∷ entries
              | Ordering.gt ↦ (k', w) ∷ insert cmp entries k v
            ])) [
              | Ordering.lt ↦ λ e.
                  let up : cmp k' k ≡ Ordering.gt = order.flips k k' e in
                  ((up, AllAbove-below k k' entries up above), (above, rest))
              | Ordering.eq ↦
                  λ e. (subst (λ j. AllAbove j entries) (sym (order.key.sound k k' e)) above, rest)
              | Ordering.gt ↦ λ e. (
                All-insert cmp (λ (x : K × V). cmp x.0 k' ≡ Ordering.gt) entries k v above e,
                insert-IsSorted entries k v rest,
              )
            ]
        refl

  abbrev IsFound : List (K × V) → K × V → Type 0
  IsFound entries e = get cmp entries e.0 ≡ some e.1

  IsFound-later :
      (e : K × V) (entries es : List (K × V))
      → AllAbove e.0 es
      → All (IsFound entries) es
      → All (IsFound (e ∷ entries)) es
  IsFound-later e entries [] a h = tt
  IsFound-later e entries (x ∷ es) (a, above) (h, hs) =
      (ground arith, IsFound-later e entries es above hs)

  -- Each entry is what its key is mapped to.
  pub IsSorted-IsFound :
      (entries : List (K × V)) → IsSorted cmp entries → All (IsFound entries) entries
  IsSorted-IsFound [] h = tt
  IsSorted-IsFound (e ∷ es) (above, rest) =
      (ground (arith, order.key.same e.0), IsFound-later e es es above (IsSorted-IsFound es rest))
