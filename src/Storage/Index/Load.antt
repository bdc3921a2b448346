-- ===== src/Storage/Index/Load.antt =====
-- An index file is loaded as it was written.
use replog.Prelude.{
  ℕ, suc, ◌*◌, ◌/◌, ◌%◌, ◌≡◌, refl, true, Option, none, some, List, [], ◌∷◌, ◌++◌, length, drop,
  slice, arith,
}
use replog.Proto.Wire.Bytes.{le_bytes, from_le_bytes, from_le_bytes-le_bytes}
use replog.Proto.Wire.Primitives.{IsU32}
use replog.Storage.Index.{Entry, encode_entry, follows, load_entries, load}

-- The bytes of the file.
abbrev pub encode_entries : List Entry → List ℕ
encode_entries [] = []
encode_entries (e ∷ es) = encode_entry e ++ encode_entries es

-- Entries of u32 values, each behind the one before it in both components.
abbrev pub IsChain : Option Entry → List Entry → Type 0
IsChain prev [] = Unit {0}
IsChain prev (e ∷ es) = IsU32 e.0 × IsU32 e.1 × (follows prev e ≡ true) × IsChain (some e) es

length-encode_entries : (es : List Entry) → length (encode_entries es) ≡ length es * 8
unfolding encode_entry le_bytes
length-encode_entries [] = refl
length-encode_entries (e ∷ es) = omega (arith, length-encode_entries es)

-- The first entry of the bytes.
slice_first :
    (a b : ℕ) (back : List ℕ)
    → IsU32 a
    → from_le_bytes (slice 0 4 ((le_bytes 4 a ++ le_bytes 4 b) ++ back)) ≡ a
slice_first a b back h = unfold le_bytes in from_le_bytes-le_bytes 4 a h

slice_second :
    (a b : ℕ) (back : List ℕ)
    → IsU32 b
    → from_le_bytes (slice 4 8 ((le_bytes 4 a ++ le_bytes 4 b) ++ back)) ≡ b
slice_second a b back h = unfold le_bytes in from_le_bytes-le_bytes 4 b h

drop_first : (a b : ℕ) (back : List ℕ) → drop 8 ((le_bytes 4 a ++ le_bytes 4 b) ++ back) ≡ back
drop_first a b back = unfold le_bytes in refl

-- One round of the loop.
load_entries-round :
    (n : ℕ) (prev : Option Entry) (bytes : List ℕ) (a b : ℕ) (es : List Entry)
    → from_le_bytes (slice 0 4 bytes) ≡ a
    → from_le_bytes (slice 4 8 bytes) ≡ b
    → follows prev (a, b) ≡ true
    → load_entries n (some (a, b)) (drop 8 bytes) ≡ some es
    → load_entries (suc n) prev bytes ≡ some ((a, b) ∷ es)
unfolding load_entries
load_entries-round n prev bytes a b es h0 h1 f rest = rw (h0, h1, f, rest) (cc (h0, h1))

load_entries-encode :
    (prev : Option Entry) (es : List Entry)
    → IsChain prev es
    → load_entries (length es) prev (encode_entries es) ≡ some es
unfolding encode_entry
load_entries-encode prev [] h = unfold load_entries in refl
load_entries-encode prev ((a, b) ∷ es) (h0, h1, f, hs) =
    let back = encode_entries es in
    load_entries-round (length es) prev _ a b es (slice_first a b back h0)
      (slice_second a b back h1) f
      (rw (drop_first a b back) (load_entries-encode (some (a, b)) es hs))

-- A file of entries in order, each field below 2 ^ 32, loads as those entries.
pub load-encode_entries :
    (es : List Entry) → IsChain none es → load (some (encode_entries es)) ≡ some es
unfolding load
load-encode_entries es h =
    let n : length (encode_entries es) / 8 ≡ length es = omega (arith, length-encode_entries es) in
    let m : length (encode_entries es) % 8 ≡ 0 = omega (arith, length-encode_entries es) in
    rw (m, n) (load_entries-encode none es h)
