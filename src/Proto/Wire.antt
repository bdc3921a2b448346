-- ===== src/Proto/Wire.antt =====
-- src/proto/wire.rs: the little-endian primitives. A `put_` function is the list of bytes that the
-- source's function appends to its `out`; a `Reader` is a function on the unread bytes `buf[pos..]`.
pub mod Monad
pub mod Bytes
pub mod Reads
pub mod Primitives
pub mod Prefix
use replog.Prelude.{
  ℕ, zero, suc, ◌+◌, ◌-◌, ◌*◌, ◌%◌, ◌^◌, ◌≡◌, Bool, true, false, Option, none, some, List, [], ◌∷◌,
  ◌++◌, length, take as list_take, drop, ltb, ◌==◌, if◌then◌else◌,
}
use replog.Prelude.Int.{ℤ, to_word, of_word, pos, negsuc}
use replog.Proto.Result.{Result, ok, err, truncated, malformed, invalid_utf8, trailing_bytes}
use replog.Proto.Utf8.{is_utf8}
use Monad.{Reader, pure, raise, ◌>>=◌}
use Bytes.{le_bytes, from_le_bytes}

-- `as u16` and `as u32` keep the low bits.
abbrev pub as_u16 : ℕ → ℕ
as_u16 n = n % 2 ^ 16

abbrev pub as_u32 : ℕ → ℕ
as_u32 n = n % 2 ^ 32

-- `as i32` reads the low 32 bits as a signed word.
abbrev pub as_i32 : ℕ → ℤ
as_i32 n = of_word (2 ^ 31) (n % 2 ^ 32)

-- The bytes of a message, field by field.
abbrev pub concat : List (List ℕ) → List ℕ
concat [] = []
concat (b ∷ bs) = b ++ concat bs

-- `concat`, kept as a call so that the rules of `Reads` apply to it.
unfoldable pub fields : List (List ℕ) → List ℕ
fields bs = concat bs

unfoldable pub put_u8 : ℕ → List ℕ
put_u8 v = v ∷ []

unfoldable pub put_u16 : ℕ → List ℕ
put_u16 v = le_bytes 2 v

unfoldable pub put_u32 : ℕ → List ℕ
put_u32 v = le_bytes 4 v

unfoldable pub put_u64 : ℕ → List ℕ
put_u64 v = le_bytes 8 v

unfoldable pub put_i32 : ℤ → List ℕ
put_i32 v = le_bytes 4 (to_word (2 ^ 31) v)

unfoldable pub put_i64 : ℤ → List ℕ
put_i64 v = le_bytes 8 (to_word (2 ^ 63) v)

-- The `debug_assert` on the length is absent from a release build: a longer text has its length cut.
unfoldable pub put_str : List ℕ → List ℕ
put_str s = put_u16 (as_u16 (length s)) ++ s

unfoldable pub put_bytes : List ℕ → List ℕ
put_bytes b = put_u32 (as_u32 (length b)) ++ b

unfoldable pub put_opt_bytes : Option (List ℕ) → List ℕ
put_opt_bytes none = put_i32 (negsuc 0)
put_opt_bytes (some b) = put_i32 (as_i32 (length b)) ++ b

unfoldable pub take : ℕ → Reader (List ℕ)
take n s = if ltb (length s) n then err truncated else ok (list_take n s, drop n s)

unfoldable pub u8 : Reader ℕ
u8 = do b ← take 1; pure (from_le_bytes b)

unfoldable pub u16 : Reader ℕ
u16 = do b ← take 2; pure (from_le_bytes b)

unfoldable pub u32 : Reader ℕ
u32 = do b ← take 4; pure (from_le_bytes b)

unfoldable pub u64 : Reader ℕ
u64 = do b ← take 8; pure (from_le_bytes b)

unfoldable pub i32 : Reader ℤ
i32 = do b ← take 4; pure (of_word (2 ^ 31) (from_le_bytes b))

unfoldable pub i64 : Reader ℤ
i64 = do b ← take 8; pure (of_word (2 ^ 63) (from_le_bytes b))

-- `String::from_utf8`
unfoldable pub from_utf8 : List ℕ → Reader (List ℕ)
from_utf8 b = if is_utf8 b then pure b else raise (malformed invalid_utf8)

unfoldable pub string : Reader (List ℕ)
string = do len ← u16; b ← take len; from_utf8 b

unfoldable pub bytes : Reader (List ℕ)
bytes = do len ← u32; take len

unfoldable pub opt_bytes_of : ℤ → Reader (Option (List ℕ))
opt_bytes_of (negsuc n) = pure none
opt_bytes_of (pos len) = do b ← take len; pure (some b)

unfoldable pub opt_bytes : Reader (Option (List ℕ))
opt_bytes = do len ← i32; opt_bytes_of len

unfoldable pub expect_end : Reader (Unit {0})
expect_end s = if length s == 0 then ok (tt, s) else err (malformed (trailing_bytes (length s)))

-- `for x in xs { put(out, x) }`
unfoldable pub put_each : {A : Type 0} → (A → List ℕ) → List A → List ℕ
put_each put [] = []
put_each put (x ∷ xs) = put x ++ put_each put xs

-- `for _ in 0..count { out.push(read(r)?) }`
unfoldable pub read_each : {A : Type 0} → ℕ → Reader A → Reader (List A)
read_each zero read = pure []
read_each (suc count) read = do x ← read; xs ← read_each count read; pure (x ∷ xs)
