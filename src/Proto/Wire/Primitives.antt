-- ===== src/Proto/Wire/Primitives.antt =====
-- Round trips of the primitives of src/proto/wire.rs, with the ranges in which they hold.
use native.Mathlib.Nat.{mod-eq_of_lt}
use replog.Prelude.{
  ℕ, ◌+◌, ◌*◌, ◌^◌, ◌<◌, ◌≡◌, refl, ap, true, Option, none, some, List, [], ◌∷◌, subst, arith,
  length, All, append-nil,
}
use replog.Prelude.Int.{ℤ, InRange, to_word, of_word, of_word-to_word, to_word-lt, pos, negsuc}
use replog.Proto.Utf8.{is_utf8}
use replog.Proto.Wire.{
  as_u32, as_i32, put_u8, put_u16, put_u32, put_u64, put_i32, put_i64, put_str, put_bytes,
  put_opt_bytes, put_each, take, u8, u16, u32, u64, i32, i64, from_utf8, string, bytes,
  opt_bytes_of, opt_bytes, read_each,
}
use replog.Proto.Wire.Monad.{Reader, pure, ◌>>=◌}
use replog.Proto.Wire.Bytes.{le_bytes, from_le_bytes, length-le_bytes, from_le_bytes-le_bytes}
use replog.Proto.Wire.Reads.{Reads, Reads-bind_append, Reads-last, Reads-take}

abbrev pub IsU8 : ℕ → Type 0
IsU8 v = v < 2 ^ 8

abbrev pub IsU16 : ℕ → Type 0
IsU16 v = v < 2 ^ 16

abbrev pub IsU32 : ℕ → Type 0
IsU32 v = v < 2 ^ 32

abbrev pub IsU64 : ℕ → Type 0
IsU64 v = v < 2 ^ 64

abbrev pub IsI32 : ℤ → Type 0
IsI32 v = InRange (2 ^ 31) v

abbrev pub IsI64 : ℤ → Type 0
IsI64 v = InRange (2 ^ 63) v

-- A text that fits its u16 length field.
pub record IsString (s : List ℕ) : Type 0 where
  pub fits : length s < 2 ^ 16
  pub utf8 : is_utf8 s ≡ true

-- A blob that fits its u32 length field, and one that fits the positive half of an i32.
abbrev pub IsBlob : List ℕ → Type 0
IsBlob b = length b < 2 ^ 32

abbrev pub IsOptBlob : Option (List ℕ) → Type 0
IsOptBlob none = Unit {0}
IsOptBlob (some b) = length b < 2 ^ 31

Reads-eq : {A : Type 0} {r : Reader A} {b : List ℕ} {x y : A} → x ≡ y → Reads r b x → Reads r b y
Reads-eq {r = r} {b = b} e h = subst (λ t. Reads r b t) e h

Reads-done : {A : Type 0} (a : A) → Reads (pure a) [] a
unfolding pure
Reads-done a = record { at = λ rest. refl }

-- A blob of known length, and a last step that reads nothing more.
Reads-take_then :
    {A : Type 0} (f : List ℕ → Reader A) (b : List ℕ) (a : A)
    → Reads (f b) [] a
    → Reads (do x ← take (length b); f x) b a
Reads-take_then f b a h =
    rw append-nil at (Reads-bind_append (take (length b)) f b [] b a (Reads-take _ b refl) h)

Reads-word :
    {A : Type 0} (k v : ℕ) (f : ℕ → A)
    → v < 256 ^ k
    → Reads (do b ← take k; pure (f (from_le_bytes b))) (le_bytes k v) (f v)
Reads-word k v f h = Reads-eq (ap f (from_le_bytes-le_bytes k v h)) (
    Reads-last (take k) (λ b. f (from_le_bytes b)) (le_bytes k v) (le_bytes k v)
      (Reads-take k (le_bytes k v) (length-le_bytes k v)))

pub Reads-u8 : (v : ℕ) → Reads u8 (put_u8 v) v
unfolding u8 put_u8 from_le_bytes
Reads-u8 v =
    Reads-eq {x = v + 256 * 0} (omega arith)
      (Reads-last (take 1) from_le_bytes (v ∷ []) (v ∷ []) (Reads-take 1 (v ∷ []) refl))

pub Reads-u16 : (v : ℕ) → IsU16 v → Reads u16 (put_u16 v) v
unfolding u16 put_u16
Reads-u16 v h = Reads-word 2 v (λ n. n) h

pub Reads-u32 : (v : ℕ) → IsU32 v → Reads u32 (put_u32 v) v
unfolding u32 put_u32
Reads-u32 v h = Reads-word 4 v (λ n. n) h

pub Reads-u64 : (v : ℕ) → IsU64 v → Reads u64 (put_u64 v) v
unfolding u64 put_u64
Reads-u64 v h = Reads-word 8 v (λ n. n) h

pub Reads-i32 : (v : ℤ) → IsI32 v → Reads i32 (put_i32 v) v
unfolding i32 put_i32
Reads-i32 v h =
    Reads-eq (of_word-to_word (2 ^ 31) v h)
      (Reads-word 4 (to_word (2 ^ 31) v) (of_word (2 ^ 31)) (to_word-lt (2 ^ 31) v (omega arith)))

pub Reads-i64 : (v : ℤ) → IsI64 v → Reads i64 (put_i64 v) v
unfolding i64 put_i64
Reads-i64 v h =
    Reads-eq (of_word-to_word (2 ^ 63) v h)
      (Reads-word 8 (to_word (2 ^ 63) v) (of_word (2 ^ 63)) (to_word-lt (2 ^ 63) v (omega arith)))

Reads-from_utf8 : (s : List ℕ) → is_utf8 s ≡ true → Reads (from_utf8 s) [] s
unfolding from_utf8 pure
Reads-from_utf8 s h = record { at = λ rest. rw h }

pub Reads-string : (s : List ℕ) → IsString s → Reads string (put_str s) s
unfolding string put_str
Reads-string s h = rw (mod-eq_of_lt h.fits) (
    Reads-bind_append u16 _ (put_u16 (length s)) s (length s) s (Reads-u16 (length s) h.fits)
      (Reads-take_then from_utf8 s s (Reads-from_utf8 s h.utf8)))

pub Reads-bytes : (b : List ℕ) → IsBlob b → Reads bytes (put_bytes b) b
unfolding bytes put_bytes
Reads-bytes b h = rw (mod-eq_of_lt h) (
    Reads-bind_append u32 take (put_u32 (length b)) b (length b) b (Reads-u32 (length b) h)
      (Reads-take (length b) b refl))

as_i32-small : (n : ℕ) → n < 2 ^ 31 → as_i32 n ≡ pos n
as_i32-small n h = ground arith

pub Reads-opt_bytes : (o : Option (List ℕ)) → IsOptBlob o → Reads opt_bytes (put_opt_bytes o) o
unfolding opt_bytes put_opt_bytes opt_bytes_of
Reads-opt_bytes none h = rw append-nil at (
    Reads-bind_append i32 opt_bytes_of (put_i32 (negsuc 0)) [] (negsuc 0) none
      (Reads-i32 (negsuc 0) (omega arith)) (Reads-done none))
Reads-opt_bytes (some b) h = rw (as_i32-small (length b) h) (
    Reads-bind_append i32 opt_bytes_of (put_i32 (pos (length b))) b (pos (length b)) (some b)
      (Reads-i32 (pos (length b)) h)
      (Reads-last (take (length b)) some b b (Reads-take (length b) b refl)))

-- A list whose every item is read back is read back.
pub Reads-each :
    {A : Type 0} (put : A → List ℕ) (read : Reader A) (xs : List A)
    → All (λ x. Reads read (put x) x) xs
    → Reads (read_each (length xs) read) (put_each put xs) xs
unfolding read_each put_each
Reads-each put read [] h = Reads-done []
Reads-each put read (x ∷ xs) (h, hs) =
    Reads-bind_append read _ (put x) (put_each put xs) x (x ∷ xs) h (
      Reads-last (read_each (length xs) read) (λ t. x ∷ t) (put_each put xs) xs
        (Reads-each put read xs hs))

-- The count of a list, as its length field is written.
pub Reads-count :
    {A : Type 0} (xs : List A)
    → length xs < 2 ^ 32
    → Reads u32 (put_u32 (as_u32 (length xs))) (length xs)
Reads-count xs h = rw (mod-eq_of_lt h) (Reads-u32 (length xs) h)

pub All-map :
    {A : Type 0} {P Q : A → Type 0} → ((x : A) → P x → Q x) → (xs : List A) → All P xs → All Q xs
All-map f [] h = tt
All-map f (x ∷ xs) (h, hs) = (f x h, All-map f xs hs)
