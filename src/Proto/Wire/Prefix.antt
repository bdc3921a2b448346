-- ===== src/Proto/Wire/Prefix.antt =====
-- No reader looks past what it takes: bytes added behind the input join the rest.
use replog.Prelude.{
  ℕ, zero, suc, ◌≡◌, refl, Bool, true, false, List, ◌++◌, arith, length-append, take-append_le,
  drop-append_le, if◌then◌else◌,
}
use replog.Prelude.Int.{ℤ, pos, negsuc}
use replog.Proto.Result.{ProtoError, Result, ok, err}
use replog.Proto.Wire.{
  take, u8, u16, u32, u64, i32, i64, from_utf8, string, bytes, opt_bytes_of, opt_bytes, read_each,
}
use replog.Proto.Wire.Monad.{Reader, pure, raise, continue, ◌>>=◌}

pub record Extends {A : Type 0} (read : Reader A) : Type 0 where
  pub at :
      (s more : List ℕ) (a : A) (rest : List ℕ)
      → read s ≡ ok (a, rest)
      → read (s ++ more) ≡ ok (a, rest ++ more)

module _ {A : Type 0} where
  pub Extends-pure : (a : A) → Extends (pure a)
  unfolding pure
  Extends-pure a = record { at = λ s more x rest h. ground arith }

  pub Extends-raise : (e : ProtoError) → Extends (raise {A = A} e)
  unfolding raise
  Extends-raise e = record { at = λ s more x rest h. cc }

  pub Extends-if :
      (b : Bool) (m n : Reader A) → Extends m → Extends n → Extends (if b then m else n)
  Extends-if true m n hm hn = hm
  Extends-if false m n hm hn = hn

module _ {A B : Type 0} where
  -- A chain that succeeds has a first step that does.
  continue-eq_ok :
      (r : Result (A × List ℕ)) (f : A → Reader B) (x : B) (rest : List ℕ)
      → continue r f ≡ ok (x, rest)
      → (a : A) × (s : List ℕ) × (r ≡ ok (a, s)) × (f a s ≡ ok (x, rest))
  continue-eq_ok (ok (a, s)) f x rest h = (a, s, refl, h)
  continue-eq_ok (err e) f x rest h = cc

  pub Extends-bind :
      (m : Reader A) (f : A → Reader B) → Extends m → ((a : A) → Extends (f a)) → Extends (m >>= f)
  unfolding ◌>>=◌
  Extends-bind m f hm hf = record {
    at = λ s more x rest h.
        let (a, s', read, next) = continue-eq_ok (m s) f x rest h in
        rw (hm.at s more a s' read) ((hf a).at s' more x rest next);
  }

pub Extends-take : (n : ℕ) → Extends (take n)
unfolding take
Extends-take n = record {
  at = λ s more x rest h.
      ground (arith, length-append s more, take-append_le n s more, drop-append_le n s more);
}

pub ruleset monad_rules = (Extends-pure, Extends-raise, Extends-if, Extends-bind, Extends-take)

pub Extends-u8 : Extends u8
unfolding u8
Extends-u8 = search monad_rules

pub Extends-u16 : Extends u16
unfolding u16
Extends-u16 = search monad_rules

pub Extends-u32 : Extends u32
unfolding u32
Extends-u32 = search monad_rules

pub Extends-u64 : Extends u64
unfolding u64
Extends-u64 = search monad_rules

pub Extends-i32 : Extends i32
unfolding i32
Extends-i32 = search monad_rules

pub Extends-i64 : Extends i64
unfolding i64
Extends-i64 = search monad_rules

Extends-from_utf8 : (b : List ℕ) → Extends (from_utf8 b)
unfolding from_utf8
Extends-from_utf8 b = search monad_rules

pub Extends-string : Extends string
unfolding string
Extends-string = search (monad_rules, Extends-u16, Extends-from_utf8)

pub Extends-bytes : Extends bytes
unfolding bytes
Extends-bytes = search (monad_rules, Extends-u32)

Extends-opt_bytes_of : (len : ℤ) → Extends (opt_bytes_of len)
unfolding opt_bytes_of
Extends-opt_bytes_of (pos n) = search monad_rules
Extends-opt_bytes_of (negsuc n) = search monad_rules

pub Extends-opt_bytes : Extends opt_bytes
unfolding opt_bytes
Extends-opt_bytes = search (monad_rules, Extends-i32, Extends-opt_bytes_of)

pub Extends-each :
    {A : Type 0} (count : ℕ) (read : Reader A) → Extends read → Extends (read_each count read)
unfolding read_each
Extends-each zero read h = search monad_rules
Extends-each (suc count) read h =
    Extends-bind read _ h (λ x.
      Extends-bind (read_each count read) _ (Extends-each count read h) (λ xs. Extends-pure _))

pub ruleset prefix_rules = (
  monad_rules, Extends-u8, Extends-u16, Extends-u32, Extends-u64, Extends-i32, Extends-i64,
  Extends-string, Extends-bytes, Extends-opt_bytes, Extends-each,
)
