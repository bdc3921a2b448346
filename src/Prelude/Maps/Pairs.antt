-- ===== src/Prelude/Maps/Pairs.antt =====
-- Keys of several parts, compared part by part.
use Prim.Native.Nat.{compare, Ordering}
use mathlib.Core.Path.{◌≡◌, ap, ◌∙◌}
use native.Mathlib.Omega.{arith}
use replog.Prelude.Maps.GetInsert.{IsKey}

module _ {J K : Type 0} (cmp : J → J → Ordering) (cmp' : K → K → Ordering) where
  abbrev pub compare_pair : J × K → J × K → Ordering
  compare_pair x y = elim (cmp x.0 y.0) [
    | Ordering.lt ↦ Ordering.lt
    | Ordering.eq ↦ cmp' x.1 y.1
    | Ordering.gt ↦ Ordering.gt
  ]

  abbrev tuple : J → K → J × K
  tuple a b = (a, b)

  pair_path : (x y : J × K) → x.0 ≡ y.0 → x.1 ≡ y.1 → x ≡ y
  pair_path x y p q = ap (λ t. tuple t x.1) p ∙ ap (tuple y.0) q

  module _ (key : IsKey cmp) (key' : IsKey cmp') where
    pub compare_pair-IsKey : IsKey compare_pair
    compare_pair-IsKey = record {
      same = λ x. ground (arith, key.same x.0, key'.same x.1);
      sound = λ x y e.
          let first : cmp x.0 y.0 ≡ Ordering.eq = ground arith in
          let second : cmp' x.1 y.1 ≡ Ordering.eq = ground arith in
          pair_path x y (key.sound x.0 y.0 first) (key'.sound x.1 y.1 second);
    }

pub compare-IsKey : IsKey compare
compare-IsKey = record { same = λ n. ground arith; sound = λ m n e. ground arith }
