-- ===== src/Storage/Config/Returns.antt =====
-- A predicate of the value of a result, which an error, a panic and a loop out of fuel satisfy.
use replog.Prelude.{◌≡◌, subst, Bool, true, false, if◌then◌else◌}
use replog.Storage.Config.{Result, ok, err, panicked, stuck, ◌>>=◌}

abbrev pub Returns : {A : Type 0} → (A → Type 0) → Result A → Type 0
Returns P (ok a) = P a
Returns P (err e) = Unit {0}
Returns P panicked = Unit {0}
Returns P stuck = Unit {0}

module _ {A : Type 0} (P : A → Type 0) where
  pub Returns-ok : (m : Result A) (a : A) → m ≡ ok a → Returns P m → P a
  Returns-ok m a e h = subst (Returns P) e h

  pub Returns-bind :
      {B : Type 0} (Q : B → Type 0) (m : Result B) (f : B → Result A)
      → Returns Q m
      → ((b : B) → Q b → Returns P (f b))
      → Returns P (m >>= f)
  Returns-bind Q (ok b) f h k = k b h
  Returns-bind Q (err e) f h k = tt
  Returns-bind Q panicked f h k = tt
  Returns-bind Q stuck f h k = tt

  pub Returns-if :
      (b : Bool) (x y : Result A) → Returns P x → Returns P y → Returns P (if b then x else y)
  Returns-if true x y h k = h
  Returns-if false x y h k = k

-- Any result satisfies what every value does.
pub Returns-total : {A : Type 0} (P : A → Type 0) (m : Result A) → ((a : A) → P a) → Returns P m
Returns-total P (ok a) h = h a
Returns-total P (err e) h = tt
Returns-total P panicked h = tt
Returns-total P stuck h = tt
