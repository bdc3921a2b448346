-- ===== src/Storage/Epoch.antt =====
-- src/storage/epoch.rs: the checkpoint of the leader epochs of a partition. `file` is the contents of
-- leader-epochs, `none` where there is no such file; the operating system's calls succeed.
pub mod Reload
pub mod EndOffset
use replog.Prelude.{
  ℕ, zero, suc, ◌/◌, ◌%◌, Bool, true, false, not, ◌&&◌, ◌||◌, Option, none, some, List, [], ◌∷◌,
  ◌++◌, length, drop, slice, leb, ltb, ◌==◌, if◌then◌else◌,
}
use replog.Proto.Wire.Bytes.{le_bytes, from_le_bytes}

abbrev pub entry_bytes : ℕ
entry_bytes = 16

-- An epoch with the offset where it starts.
abbrev pub Entry : Type 0
Entry = ℕ × ℕ

pub record EpochCheckpoint : Type 0 where
  pub file : Option (List ℕ)
  pub entries : List Entry

pub data Error : Type 0 where
  partial_entry not_monotonic does_not_follow : Error

pub data Result (A : Type 0) : Type 0 where
  ok : A → Result A
  err : Error → Result A

-- `entries.last()`, or `prev` where there is none.
unfoldable pub last_from : Option Entry → List Entry → Option Entry
last_from prev [] = prev
last_from prev (e ∷ es) = last_from (some e) es

unfoldable pub last : List Entry → Option Entry
last es = last_from none es

unfoldable pub current_epoch : List Entry → ℕ
current_epoch es = elim (last es) [ none ↦ 0 | some e ↦ e.0 ]

-- Whether the entry may stand behind the one before it.
unfoldable pub follows : Option Entry → Entry → Bool
follows none e = true
follows (some p) e = not (leb e.0 p.0 || ltb e.1 p.1)

-- The loop of `load` over `n` chunks, behind the entry `prev`.
unfoldable pub load_entries : ℕ → Option Entry → List ℕ → Result (List Entry)
load_entries zero prev bytes = ok []
load_entries (suc n) prev bytes =
    let e : Entry = (from_le_bytes (slice 0 8 bytes), from_le_bytes (slice 8 16 bytes)) in
    let rest = load_entries n (some e) (drop entry_bytes bytes) in
    if follows prev e
    then elim rest [ ok es ↦ ok (e ∷ es) | err x ↦ err x ]
    else err Error.not_monotonic

unfoldable pub load_bytes : List ℕ → Result (List Entry)
load_bytes bytes =
    if not (length bytes % entry_bytes == 0)
    then err Error.partial_entry
    else load_entries (length bytes / entry_bytes) none bytes

unfoldable pub load : Option (List ℕ) → Result EpochCheckpoint
load none = ok (record { file = none; entries = [] })
load (some bytes) = elim (load_bytes bytes) [
  | ok es ↦ ok (record { file = some bytes; entries = es })
  | err x ↦ err x
]

unfoldable pub encode_entry : Entry → List ℕ
encode_entry e = le_bytes 8 e.0 ++ le_bytes 8 e.1

-- The contents of the file that is opened to append, and created if it is missing.
unfoldable pub contents : Option (List ℕ) → List ℕ
contents none = []
contents (some bytes) = bytes

unfoldable pub push : EpochCheckpoint → Entry → EpochCheckpoint
push cp e = record {
  file = some (contents cp.file ++ encode_entry e);
  entries = cp.entries ++ e ∷ [];
}

unfoldable pub append : EpochCheckpoint → ℕ → ℕ → Result EpochCheckpoint
unfolding push
append cp epoch start_offset = elim (last cp.entries) [
  | none ↦ ok (push cp (epoch, start_offset))
  | some l ↦
      if epoch == l.0 && start_offset == l.1
      then ok cp
      else if leb epoch l.0 || ltb start_offset l.1
      then err Error.does_not_follow
      else ok (push cp (epoch, start_offset))
]

-- The loop of `end_offset_for`; `known` says whether an entry was passed.
unfoldable pub end_offset_from : Bool → List Entry → ℕ → ℕ → ℕ
end_offset_from known [] epoch log_end = if known then log_end else 0
end_offset_from known (e ∷ es) epoch log_end =
    let later = end_offset_from true es epoch log_end in
    if ltb epoch e.0 then (if known then e.1 else 0) else later

unfoldable pub end_offset_for : List Entry → ℕ → ℕ → ℕ
end_offset_for es epoch log_end = end_offset_from false es epoch log_end

-- `take_while(|&&(_, start)| start < new_next)`
unfoldable pub take_below : ℕ → List Entry → List Entry
take_below new_next [] = []
take_below new_next (e ∷ es) =
    let rest = take_below new_next es in if ltb e.1 new_next then e ∷ rest else []

unfoldable pub encode_entries : List Entry → List ℕ
encode_entries [] = []
encode_entries (e ∷ es) = encode_entry e ++ encode_entries es

unfoldable pub truncate_to : EpochCheckpoint → ℕ → EpochCheckpoint
truncate_to cp new_next =
    let kept = take_below new_next cp.entries in
    if length kept == length cp.entries
    then cp
    else record { file = some (encode_entries kept); entries = kept }
