-- ===== src/Prelude/Maps/Chains.antt =====
-- A list whose elements have keys and values, and a map with the value that each key had last: what
-- the map says of the next value is a relation of the value to those before it under the same key.
use Prim.Native.Nat.{Ordering}
use mathlib.Core.Path.{◌≡◌, sym, ◌∙◌, subst}
use mathlib.Core.Bool.{false}
use mathlib.Core.Logic.{◌⊎◌, inl, inr}
use mathlib.Core.Option.{some, some-injective}
use mathlib.Core.List.{List, [], ◌∷◌}
use native.Mathlib.Omega.{arith}
use replog.Prelude.Tests.{Bool-cases}
use replog.Prelude.Lists.{All}
use replog.Prelude.Maps.{get, insert}
use replog.Prelude.Maps.GetInsert.{is_eq, IsKey, get-insert_same, get-insert_other}

module _ {K V A : Type 0} (key : A → K) (val : A → V) (R : V → V → Type 0) where
  -- The later element follows the earlier one, if it has its key.
  abbrev pub IsAfter : A → A → Type 0
  IsAfter c d = key d ≡ key c → R (val c) (val d)

  -- Each element follows all those before it under its key.
  abbrev pub IsChained : List A → Type 0
  IsChained [] = Unit {0}
  IsChained (c ∷ cs) = All (IsAfter c) cs × IsChained cs

  -- The element follows the value that the map has for its key.
  abbrev pub IsNext : (K → K → Ordering) → List (K × V) → A → Type 0
  IsNext cmp last d = (prev : V) → get cmp last (key d) ≡ some prev → R prev (val d)

module _ {K V A : Type 0} (cmp : K → K → Ordering) (is_key : IsKey cmp) (key : A → K) (val : A → V)
    (R : V → V → Type 0) (R-trans : (u v w : V) → R u v → R v w → R u w) where
  key-cases : (j k : K) → (j ≡ k) ⊎ (is_eq (cmp j k) ≡ false)
  key-cases j k = elim (Bool-cases (is_eq (cmp j k))) [
    | inl e ↦ inl (is_key.sound j k (ground arith))
    | inr e ↦ inr e
  ]

  module _ (last : List (K × V)) (c : A) where
    abbrev pub latest : List (K × V)
    latest = insert cmp last (key c) (val c)

    own : (d : A) → key d ≡ key c → get cmp latest (key d) ≡ some (val c)
    own d same =
        subst (λ k. get cmp latest k ≡ some (val c)) (sym same)
          (get-insert_same cmp is_key last (key c) (val c))

    IsNext-split :
        (d : A)
        → IsNext key val R cmp last c
        → IsNext key val R cmp latest d
        → IsNext key val R cmp last d × IsAfter key val R c d
    IsNext-split d first h = (
      λ prev e. elim (key-cases (key d) (key c)) [
        | inl same ↦
            R-trans prev (val c) (val d)
              (first prev (subst (λ k. get cmp last k ≡ some prev) same e)) (h (val c) (own d same))
        | inr other ↦ h prev (get-insert_other cmp is_key last (key c) (val c) (key d) other ∙ e)
      ],
      λ same. h (val c) (own d same),
    )

    IsNext-join :
        (d : A)
        → IsNext key val R cmp last d
        → IsAfter key val R c d
        → IsNext key val R cmp latest d
    IsNext-join d h after prev e = elim (key-cases (key d) (key c)) [
      | inl same ↦
          subst (λ v. R v (val d)) (some-injective (val c) prev (sym (own d same) ∙ e)) (after same)
      | inr other ↦
          h prev (sym (get-insert_other cmp is_key last (key c) (val c) (key d) other) ∙ e)
    ]

    pub IsNext-splits :
        (ds : List A)
        → IsNext key val R cmp last c
        → All (IsNext key val R cmp latest) ds
        → All (IsNext key val R cmp last) ds × All (IsAfter key val R c) ds
    IsNext-splits [] first h = (tt, tt)
    IsNext-splits (d ∷ ds) first (h, hs) =
        let one = IsNext-split d first h in
        let rest = IsNext-splits ds first hs in ((one.0, rest.0), (one.1, rest.1))

    pub IsNext-joins :
        (ds : List A)
        → All (IsNext key val R cmp last) ds
        → All (IsAfter key val R c) ds
        → All (IsNext key val R cmp latest) ds
    IsNext-joins [] h a = tt
    IsNext-joins (d ∷ ds) (h, hs) (a, as') = (IsNext-join d h a, IsNext-joins ds hs as')

  pub IsNext-empty : (cs : List A) → All (IsNext key val R cmp []) cs
  IsNext-empty [] = tt
  IsNext-empty (c ∷ cs) = ((λ prev e. ground arith), IsNext-empty cs)
