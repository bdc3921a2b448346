-- ===== src/Storage/Epoch/EndOffset.antt =====
-- Where an epoch ends in a history: the comparison of a follower's history with its leader's.
use replog.Prelude.{
  ℕ, ◌<◌, ◌≤◌, ◌≡◌, refl, Bool, true, false, Option, none, some, List, [], ◌∷◌, ◌++◌, All, arith,
  subst, sym, append-nil, append_assoc, All-append, if_cases, ltb,
}
use replog.Storage.Epoch.{Entry, follows, end_offset_from, end_offset_for}
use replog.Storage.Epoch.Reload.{IsChain}

-- Entries of epochs up to `epoch` are passed.
end_offset_from-passed :
    (known : Bool) (front back : List Entry) (epoch log_end : ℕ) (e : Entry)
    → All (λ x. x.0 ≤ epoch) (e ∷ front)
    → end_offset_from known (e ∷ (front ++ back)) epoch log_end
      ≡ end_offset_from true back epoch log_end
unfolding end_offset_from
end_offset_from-passed known [] back epoch log_end e (h, hs) = ground (arith, h)
end_offset_from-passed known (x ∷ front) back epoch log_end e (h, hs) =
    ground (arith, h, end_offset_from-passed true front back epoch log_end x hs)

-- An epoch in or behind entries `e`, `front` of the history ends where the first later epoch starts.
pub end_offset_for-next :
    (e : Entry) (front : List Entry) (later : Entry) (back : List Entry) (epoch log_end : ℕ)
    → All (λ x. x.0 ≤ epoch) (e ∷ front)
    → epoch < later.0
    → end_offset_for (e ∷ (front ++ later ∷ back)) epoch log_end ≡ later.1
unfolding end_offset_for end_offset_from
end_offset_for-next e front later back epoch log_end h l =
    rw (end_offset_from-passed false front (later ∷ back) epoch log_end e h) (ground arith)

-- Where an epoch ends in a history, for a log that ends at `log_end`.
pub data EndsAt (epoch log_end : ℕ) : List Entry → ℕ → Type 0 where
  -- the whole history is later
  predates : (es : List Entry) → All (λ e. epoch < e.0) es → EndsAt epoch log_end es 0
  -- no entry is later, and there is one
  current :
      (e : Entry) (front : List Entry)
      → All (λ x. x.0 ≤ epoch) (e ∷ front)
      → EndsAt epoch log_end (e ∷ front) log_end
  -- behind an entry that is not later, the first later one
  passed :
      (e : Entry) (front : List Entry) (later : Entry) (back : List Entry)
      → All (λ x. x.0 ≤ epoch) (e ∷ front)
      → epoch < later.0
      → EndsAt epoch log_end (e ∷ (front ++ later ∷ back)) later.1

-- Behind entries that are not later, the end is that of the entries `es`.
end_offset_from-EndsAt :
    (epoch log_end : ℕ) (e : Entry) (front es : List Entry)
    → All (λ x. x.0 ≤ epoch) (e ∷ front)
    → EndsAt epoch log_end (e ∷ (front ++ es)) (end_offset_from true es epoch log_end)
unfolding end_offset_from
end_offset_from-EndsAt epoch log_end e front [] h =
    subst (λ xs. EndsAt epoch log_end (e ∷ xs) log_end) (sym (append-nil front)) (current e front h)
end_offset_from-EndsAt epoch log_end e front (x ∷ es) h =
    if_cases (EndsAt epoch log_end (e ∷ (front ++ x ∷ es))) (ltb epoch x.0) x.1
      (end_offset_from true es epoch log_end) (λ c. passed e front x es h (ground arith))
      (λ c.
        subst (λ xs. EndsAt epoch log_end (e ∷ xs) (end_offset_from true es epoch log_end))
          (append_assoc front (x ∷ []) es)
          (end_offset_from-EndsAt epoch log_end e (front ++ x ∷ []) es
            (h.0, All-append (λ y. y.0 ≤ epoch) front (x ∷ []) h.1 (ground arith, tt))))

-- The entries of a chain are later than the one before them.
IsChain-later :
    (epoch : ℕ) (p : Entry) (es : List Entry)
    → IsChain (some p) es
    → epoch < p.0
    → All (λ e. epoch < e.0) es
unfolding follows
IsChain-later epoch p [] h lt = tt
IsChain-later epoch p (e ∷ es) (e0, e1, f, hs) lt =
    let up : epoch < e.0 = ground arith in (up, IsChain-later epoch e es hs up)

-- In a history in order, an epoch ends at 0 where the whole history is later, at the end of the log
-- where there is an entry and none is later, and else where the first later entry starts.
pub end_offset_for-EndsAt :
    (es : List Entry) (epoch log_end : ℕ)
    → IsChain none es
    → EndsAt epoch log_end es (end_offset_for es epoch log_end)
unfolding end_offset_for end_offset_from
end_offset_for-EndsAt [] epoch log_end h = predates [] tt
end_offset_for-EndsAt (e ∷ es) epoch log_end (e0, e1, f, hs) =
    if_cases (EndsAt epoch log_end (e ∷ es)) (ltb epoch e.0) 0
      (end_offset_from true es epoch log_end)
      (λ c.
        let lt : epoch < e.0 = ground arith in
        predates (e ∷ es) (lt, IsChain-later epoch e es hs lt))
      (λ c. end_offset_from-EndsAt epoch log_end e [] es (ground arith, tt))

-- The start of the entry before a list, 0 where there is none.
abbrev StartsAt : ℕ → Option Entry → Type 0
StartsAt low none = low ≡ 0
StartsAt low (some p) = low ≡ p.1

-- Starts that do not go down, and are at most `bound`.
abbrev pub IsRising : ℕ → ℕ → List Entry → Type 0
IsRising low bound [] = low ≤ bound
IsRising low bound (e ∷ es) = (low ≤ e.1) × IsRising e.1 bound es

rising_below : (low bound : ℕ) (es : List Entry) → IsRising low bound es → low ≤ bound
rising_below low bound [] h = h
rising_below low bound (e ∷ es) (h, hs) = omega (arith, h, rising_below e.1 bound es hs)

low-end_offset_from :
    (low log_end : ℕ) (es : List Entry) (epoch : ℕ)
    → IsRising low log_end es
    → low ≤ end_offset_from true es epoch log_end
unfolding end_offset_from
low-end_offset_from low log_end [] epoch h = h
low-end_offset_from low log_end (e ∷ es) epoch (h, hs) =
    ground (arith, h, low-end_offset_from e.1 log_end es epoch hs)

end_offset_from_mono :
    (known : Bool) (low log_end : ℕ) (es : List Entry) (epoch epoch' : ℕ)
    → IsRising low log_end es
    → epoch ≤ epoch'
    → end_offset_from known es epoch log_end ≤ end_offset_from known es epoch' log_end
unfolding end_offset_from
end_offset_from_mono known low log_end [] epoch epoch' h l = ground arith
end_offset_from_mono known low log_end (e ∷ es) epoch epoch' (h, hs) l = ground (
  arith,
  h,
  l,
  low-end_offset_from e.1 log_end es epoch' hs,
  end_offset_from_mono true e.1 log_end es epoch epoch' hs l,
)

IsChain-IsRising :
    (prev : Option Entry) (low log_end : ℕ) (es : List Entry)
    → IsChain prev es
    → StartsAt low prev
    → low ≤ log_end
    → All (λ e. e.1 ≤ log_end) es
    → IsRising low log_end es
unfolding follows
IsChain-IsRising prev low log_end [] c s l h = l
IsChain-IsRising none low log_end (e ∷ es) (c0, c1, f, cs) s l (h, hs) =
    (omega (arith, s), IsChain-IsRising (some e) e.1 log_end es cs refl h hs)
IsChain-IsRising (some p) low log_end (e ∷ es) (c0, c1, f, cs) s l (h, hs) =
    (ground (arith, s, f), IsChain-IsRising (some e) e.1 log_end es cs refl h hs)

-- In a history in order whose entries start at or below the end of the log, a later epoch does not
-- end before an earlier one.
pub end_offset_for_mono :
    (es : List Entry) (epoch epoch' log_end : ℕ)
    → IsChain none es
    → All (λ e. e.1 ≤ log_end) es
    → epoch ≤ epoch'
    → end_offset_for es epoch log_end ≤ end_offset_for es epoch' log_end
unfolding end_offset_for
end_offset_for_mono es epoch epoch' log_end c h l =
    end_offset_from_mono false 0 log_end es epoch epoch'
      (IsChain-IsRising none 0 log_end es c refl (omega arith) h) l
