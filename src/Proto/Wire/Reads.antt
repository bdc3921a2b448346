-- ===== src/Proto/Wire/Reads.antt =====
-- Round trips of the primitives: what a reader does in front of the bytes that were put for it.
use replog.Prelude.{
  ℕ, ◌≡◌, refl, List, [], ◌∷◌, ◌++◌, append_assoc, arith, length, length-append, take-append_exact,
  drop-append_exact, le→ltb_false,
}
use replog.Proto.Result.{ok}
use replog.Proto.Wire.{concat, fields, take}
use replog.Proto.Wire.Monad.{Reader, pure, ◌>>=◌}

-- `read`, in front of `bs` and anything behind it, takes `bs` and returns `a`.
pub record Reads {A : Type 0} (read : Reader A) (bs : List ℕ) (a : A) : Type 0 where
  pub at : (rest : List ℕ) → read (bs ++ rest) ≡ ok (a, rest)

module _ {A : Type 0} where
  pub Reads-pure : (a : A) → Reads (pure a) (fields []) a
  unfolding pure fields
  Reads-pure a = record { at = λ rest. refl }

module _ {A B : Type 0} where
  pub Reads-bind_append :
      (m : Reader A) (f : A → Reader B) (b c : List ℕ) (a : A) (x : B)
      → Reads m b a
      → Reads (f a) c x
      → Reads (m >>= f) (b ++ c) x
  unfolding ◌>>=◌
  Reads-bind_append m f b c a x hm hf = record {
    at = λ rest. rw append_assoc (rw (hm.at (c ++ rest)) (hf.at rest));
  }

  pub Reads-bind :
      (m : Reader A) (f : A → Reader B) (b : List ℕ) (bs : List (List ℕ)) (a : A) (x : B)
      → Reads m b a
      → Reads (f a) (fields bs) x
      → Reads (m >>= f) (fields (b ∷ bs)) x
  unfolding fields
  Reads-bind m f b bs a x hm hf = Reads-bind_append m f b (concat bs) a x hm hf

  -- A first step that reads nothing.
  pub Reads-skip :
      (a : A) (f : A → Reader B) (b : List ℕ) (x : B) → Reads (f a) b x → Reads (pure a >>= f) b x
  unfolding ◌>>=◌
  Reads-skip a f b x h = h

  -- A last step that reads nothing more.
  pub Reads-last :
      (m : Reader A) (f : A → B) (b : List ℕ) (a : A)
      → Reads m b a
      → Reads (do x ← m; pure (f x)) b (f a)
  unfolding ◌>>=◌
  Reads-last m f b a hm = record { at = λ rest. rw (hm.at rest) }

-- A last step that turns what was read into a value, and reads nothing more.
pub Reads-map :
    {A B : Type 0} (m : Reader A) (f : A → Reader B) (b : List ℕ) (a : A) (x : B)
    → f a ≡ pure x
    → Reads m b a
    → Reads (m >>= f) b x
unfolding ◌>>=◌
Reads-map m f b a x e h = record { at = λ rest. rw (h.at rest) (rw e) }

pub Reads-take : (n : ℕ) (bs : List ℕ) → length bs ≡ n → Reads (take n) bs bs
unfolding take
Reads-take n bs e = record {
  at = λ rest. rw (← e) (
      rw (
        le→ltb_false (length (bs ++ rest)) (length bs) (rw length-append (omega arith)),
        take-append_exact,
        drop-append_exact,
      ));
}
