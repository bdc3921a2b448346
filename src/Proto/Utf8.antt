-- ===== src/Proto/Utf8.antt =====
-- The standard library's `String::from_utf8`, as a test on bytes: a string is the list of its
-- bytes, and the well-formed sequences are those of the Unicode standard's table.
use replog.Prelude.{
  ℕ, zero, suc, ◌≡◌, refl, Bool, true, false, ◌&&◌, Option, none, some, List, [], ◌∷◌, leb,
  if◌then◌else◌,
}

abbrev within : ℕ → ℕ → ℕ → Bool
within lo hi b = leb lo b && leb b hi

-- For a first byte: how many bytes follow it, and the range of the first of them.
lead : ℕ → Option (ℕ × ℕ × ℕ)
lead b =
    if within 0x00 0x7f b
    then some (0, 0, 0)
    else if within 0xc2 0xdf b
    then some (1, 0x80, 0xbf)
    else if within 0xe0 0xe0 b
    then some (2, 0xa0, 0xbf)
    else if within 0xed 0xed b
    then some (2, 0x80, 0x9f)
    else if within 0xe1 0xef b
    then some (2, 0x80, 0xbf)
    else if within 0xf0 0xf0 b
    then some (3, 0x90, 0xbf)
    else if within 0xf1 0xf3 b
    then some (3, 0x80, 0xbf)
    else if within 0xf4 0xf4 b
    then some (3, 0x80, 0x8f)
    else none

-- `k` bytes of a sequence are still to come, the first of them from lo to hi.
utf8_rest : ℕ → ℕ → ℕ → List ℕ → Bool
unfolding lead
utf8_rest zero lo hi [] = true
utf8_rest zero lo hi (b ∷ bs) = elim (lead b) [
  | none ↦ false
  | some (k, lo', hi') ↦ utf8_rest k lo' hi' bs
]
utf8_rest (suc k) lo hi [] = false
utf8_rest (suc k) lo hi (b ∷ bs) = within lo hi b && utf8_rest k 0x80 0xbf bs

unfoldable pub is_utf8 : List ℕ → Bool
unfolding utf8_rest
is_utf8 bs = utf8_rest 0 0 0 bs

accepts_two_bytes : is_utf8 (0x61 ∷ 0xc3 ∷ 0xa9 ∷ []) ≡ true
unfolding is_utf8
accepts_two_bytes = refl

rejects_surrogate : is_utf8 (0xed ∷ 0xa0 ∷ 0x80 ∷ []) ≡ false
unfolding is_utf8
rejects_surrogate = refl
