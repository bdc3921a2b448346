-- ===== src/Storage/Index.antt =====
-- src/storage/index.rs: the sparse index of a segment. The entries are (relative offset, file
-- position); the index file is the list of its bytes.
pub mod Load
use replog.Prelude.{
  ℕ, zero, suc, ◌+◌, ◌%◌, ◌/◌, Bool, true, false, ◌||◌, Option, none, some, List, [], ◌∷◌, ◌++◌,
  length, drop, slice, leb, ltb, ◌==◌, not, if◌then◌else◌,
}
use replog.Proto.Wire.Bytes.{le_bytes, from_le_bytes}

abbrev pub Entry : Type 0
Entry = ℕ × ℕ

abbrev pub entry_bytes : ℕ
entry_bytes = 8

-- `entries.last()`
unfoldable pub last : List Entry → Option Entry
last [] = none
last (e ∷ []) = some e
last (e ∷ f ∷ es) = last (f ∷ es)

-- The bytes that `append` writes to the file.
unfoldable pub encode_entry : Entry → List ℕ
encode_entry e = le_bytes 4 e.0 ++ le_bytes 4 e.1

unfoldable pub append : List Entry → ℕ → ℕ → List Entry
append entries relative_offset file_position = entries ++ (relative_offset, file_position) ∷ []

-- Whether (rel, pos) may follow the entry before it.
unfoldable pub follows : Option Entry → Entry → Bool
follows none e = true
follows (some p) e = not (leb e.0 p.0 || leb e.1 p.1)

-- The loop over the chunks of `n` entries, behind the entry `prev`; `none` is a malformed file.
unfoldable pub load_entries : ℕ → Option Entry → List ℕ → Option (List Entry)
load_entries zero prev bytes = some []
load_entries (suc n) prev bytes =
    let e : Entry = (from_le_bytes (slice 0 4 bytes), from_le_bytes (slice 4 8 bytes)) in
    let rest = load_entries n (some e) (drop entry_bytes bytes) in
    if follows prev e then elim rest [ none ↦ none | some es ↦ some (e ∷ es) ] else none

-- `load`: `none` for the file is a missing one.
unfoldable pub load : Option (List ℕ) → Option (List Entry)
load none = none
load (some bytes) =
    if not (length bytes % entry_bytes == 0)
    then none
    else load_entries (length bytes / entry_bytes) none bytes

-- The binary search of `lookup`, on entries in order: the last entry whose relative offset is at most
-- the target. `best` is the entry before the list.
unfoldable pub lookup_from : Option Entry → List Entry → ℕ → Option Entry
lookup_from best [] target = best
lookup_from best (e ∷ es) target =
    let later = lookup_from (some e) es target in if ltb target e.0 then best else later

unfoldable pub lookup : List Entry → ℕ → Option Entry
unfolding lookup_from
lookup entries target = lookup_from none entries target
