-- ===== src/Prelude/Maps/Sorted.antt =====
-- Entries in order, put into an empty map one by one, are the map.
use Prim.Native.Nat.{Ordering}
use mathlib.Core.Path.{◌≡◌, refl, ap, sym, ◌∙◌}
use mathlib.Core.List.{List, [], ◌∷◌, ◌++◌, map, append_assoc, append-nil}
use native.Mathlib.Omega.{arith}
use replog.Prelude.Lists.{All}
use replog.Prelude.Maps.{insert, insert_all, IsSorted}

module _ {K V : Type 0} (cmp : K → K → Ordering) where
  insert-last :
      (entries : List (K × V)) (k : K) (v : V)
      → All (λ x. cmp k x.0 ≡ Ordering.gt) entries
      → insert cmp entries k v ≡ entries ++ (k, v) ∷ []
  insert-last [] k v h = refl
  insert-last ((c, w) ∷ entries) k v (h, hs) = ground (arith, h, insert-last entries k v hs)

  All-push :
      (P : K × V → Type 0) (xs : List (K × V)) (x : K × V) → All P xs → P x → All P (xs ++ x ∷ [])
  All-push P [] x h p = (p, tt)
  All-push P (y ∷ xs) x (h, hs) p = (h, All-push P xs x hs p)

  -- The keys of `es` are above those of `entries`.
  abbrev IsAbove : List (K × V) → List (K × V) → Type 0
  IsAbove entries [] = Unit {0}
  IsAbove entries (e ∷ es) = All (λ x. cmp e.0 x.0 ≡ Ordering.gt) entries × IsAbove entries es

  IsAbove-push :
      (entries es : List (K × V)) (e : K × V)
      → IsAbove entries es
      → All (λ x. cmp x.0 e.0 ≡ Ordering.gt) es
      → IsAbove (entries ++ e ∷ []) es
  IsAbove-push entries [] e h g = tt
  IsAbove-push entries (x ∷ es) e (h, hs) (g, gs) =
      (All-push (λ y. cmp x.0 y.0 ≡ Ordering.gt) entries e h g, IsAbove-push entries es e hs gs)

  insert_all-above :
      (entries es : List (K × V))
      → IsAbove entries es
      → IsSorted cmp es
      → insert_all cmp entries es ≡ entries ++ es
  insert_all-above entries [] h s = sym (append-nil entries)
  insert_all-above entries (e ∷ es) (h, hs) (s, ss) =
      ap (λ m. insert_all cmp m es) (insert-last entries e.0 e.1 h)
      ∙ insert_all-above (entries ++ e ∷ []) es (IsAbove-push entries es e hs s) ss
      ∙ append_assoc entries (e ∷ []) es

  IsAbove-nil : (es : List (K × V)) → IsAbove [] es
  IsAbove-nil [] = tt
  IsAbove-nil (e ∷ es) = (tt, IsAbove-nil es)

  pub insert_all-IsSorted : (es : List (K × V)) → IsSorted cmp es → insert_all cmp [] es ≡ es
  insert_all-IsSorted es s = insert_all-above [] es (IsAbove-nil es) s

  -- New values do not change the order.
  module _ (f : K × V → V) where
    abbrev renew : List (K × V) → List (K × V)
    renew es = map (λ e. (e.0, f e)) es

    All-map :
        (k : K) (es : List (K × V))
        → All {A = K × V} (λ x. cmp x.0 k ≡ Ordering.gt) es
        → All {A = K × V} (λ x. cmp x.0 k ≡ Ordering.gt) (renew es)
    All-map k [] h = tt
    All-map k (e ∷ es) (h, hs) = (h, All-map k es hs)

    pub map-IsSorted : (es : List (K × V)) → IsSorted cmp es → IsSorted cmp (renew es)
    map-IsSorted [] h = tt
    map-IsSorted (e ∷ es) (h, hs) = (All-map e.0 es h, map-IsSorted es hs)
