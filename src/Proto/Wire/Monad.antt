-- ===== src/Proto/Wire/Monad.antt =====
-- The `?` chains over a `Reader` of src/proto/wire.rs, as a monad.
use replog.Prelude.{ℕ, List}
use replog.Proto.Result.{ProtoError, Result, ok, err}

abbrev pub Reader : Type 0 → Type 0
Reader A = List ℕ → Result (A × List ℕ)

module _ {A : Type 0} where
  unfoldable pub pure : A → Reader A
  pure a s = ok (a, s)

  unfoldable pub raise : ProtoError → Reader A
  raise e s = err e

module _ {A B : Type 0} where
  abbrev pub continue : Result (A × List ℕ) → (A → Reader B) → Result (B × List ℕ)
  continue (ok (a, s)) f = f a s
  continue (err e) f = err e

  infixl 5 ◌>>=◌ ◌>>◌
  unfoldable pub ◌>>=◌ : Reader A → (A → Reader B) → Reader B
  unfolding pure raise
  ◌>>=◌ m f s = continue (m s) f

  abbrev pub ◌>>◌ : Reader A → Reader B → Reader B
  m >> n = m >>= λ _. n
