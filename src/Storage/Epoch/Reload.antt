-- ===== src/Storage/Epoch/Reload.antt =====
-- A checkpoint is loaded again as it was.
use replog.Prelude.{
  ℕ, suc, ◌*◌, ◌/◌, ◌%◌, subst, ◌≡◌, refl, sym, ap, ◌∙◌, true, ◌&&◌, ◌||◌, Option, none, some, List,
  [], ◌∷◌, ◌++◌, append_assoc, append-nil, length, drop, slice, arith, inl, inr, Bool-cases,
  Option-cases, leb, ltb, ◌==◌,
}
use replog.Proto.Wire.Bytes.{le_bytes, from_le_bytes, from_le_bytes-le_bytes}
use replog.Proto.Wire.Primitives.{IsU64}
use replog.Storage.Epoch.{
  Entry, EpochCheckpoint, Result, ok, err, last_from, last, follows, load_entries, load_bytes, load,
  encode_entry, contents, push, append, take_below, encode_entries, truncate_to,
}

-- Entries of u64 values, each behind the one before it.
abbrev pub IsChain : Option Entry → List Entry → Type 0
IsChain prev [] = Unit {0}
IsChain prev (e ∷ es) = IsU64 e.0 × IsU64 e.1 × (follows prev e ≡ true) × IsChain (some e) es

-- A checkpoint whose file holds its entries, in order.
pub record IsCheckpoint (cp : EpochCheckpoint) : Type 0 where
  pub chain : IsChain none cp.entries
  pub file : contents cp.file ≡ encode_entries cp.entries

length-encode_entries : (es : List Entry) → length (encode_entries es) ≡ length es * 16
unfolding encode_entries encode_entry le_bytes
length-encode_entries [] = refl
length-encode_entries (e ∷ es) = omega (arith, length-encode_entries es)

slice_first :
    (a b : ℕ) (back : List ℕ)
    → IsU64 a
    → from_le_bytes (slice 0 8 ((le_bytes 8 a ++ le_bytes 8 b) ++ back)) ≡ a
slice_first a b back h = unfold le_bytes in from_le_bytes-le_bytes 8 a h

slice_second :
    (a b : ℕ) (back : List ℕ)
    → IsU64 b
    → from_le_bytes (slice 8 16 ((le_bytes 8 a ++ le_bytes 8 b) ++ back)) ≡ b
slice_second a b back h = unfold le_bytes in from_le_bytes-le_bytes 8 b h

drop_first : (a b : ℕ) (back : List ℕ) → drop 16 ((le_bytes 8 a ++ le_bytes 8 b) ++ back) ≡ back
drop_first a b back = unfold le_bytes in refl

-- One round of the loop.
load_entries-round :
    (n : ℕ) (prev : Option Entry) (bytes : List ℕ) (a b : ℕ) (es : List Entry)
    → from_le_bytes (slice 0 8 bytes) ≡ a
    → from_le_bytes (slice 8 16 bytes) ≡ b
    → follows prev (a, b) ≡ true
    → load_entries n (some (a, b)) (drop 16 bytes) ≡ ok es
    → load_entries (suc n) prev bytes ≡ ok ((a, b) ∷ es)
unfolding load_entries
load_entries-round n prev bytes a b es h0 h1 f rest = rw (h0, h1, f, rest) (cc (h0, h1))

load_entries-encode :
    (prev : Option Entry) (es : List Entry)
    → IsChain prev es
    → load_entries (length es) prev (encode_entries es) ≡ ok es
unfolding encode_entry encode_entries
load_entries-encode prev [] h = unfold load_entries in refl
load_entries-encode prev ((a, b) ∷ es) (h0, h1, f, hs) =
    let back = encode_entries es in
    load_entries-round (length es) prev _ a b es (slice_first a b back h0)
      (slice_second a b back h1) f
      (rw (drop_first a b back) (load_entries-encode (some (a, b)) es hs))

load_bytes-encode : (es : List Entry) → IsChain none es → load_bytes (encode_entries es) ≡ ok es
unfolding load_bytes
load_bytes-encode es h =
    let n : length (encode_entries es) / 16 ≡ length es = omega (arith, length-encode_entries es) in
    let m : length (encode_entries es) % 16 ≡ 0 = omega (arith, length-encode_entries es) in
    rw (m, n) (load_entries-encode none es h)

load_bytes-contents :
    (file : Option (List ℕ)) (es : List Entry)
    → contents file ≡ encode_entries es
    → IsChain none es
    → load file ≡ ok (record { file = file; entries = es })
unfolding load contents
load_bytes-contents none [] e h = refl
load_bytes-contents none (x ∷ es) e h =
    absurd (omega (arith, length-encode_entries (x ∷ es), ap length e))
load_bytes-contents (some bytes) es e h = rw (load, e, load_bytes-encode es h) (cc e)

-- The checkpoint loaded from the file of a well-formed one is that one.
pub load-IsCheckpoint : (cp : EpochCheckpoint) → IsCheckpoint cp → load cp.file ≡ ok cp
load-IsCheckpoint cp h = load_bytes-contents cp.file cp.entries h.file h.chain

last_from-IsChain :
    (prev : Option Entry) (es : List Entry) (e : Entry)
    → IsChain prev es
    → IsU64 e.0
    → IsU64 e.1
    → follows (last_from prev es) e ≡ true
    → IsChain prev (es ++ e ∷ [])
unfolding last_from
last_from-IsChain prev [] e h a b f = (a, b, f, tt)
last_from-IsChain prev (x ∷ es) e (h0, h1, g, hs) a b f =
    (h0, h1, g, last_from-IsChain (some x) es e hs a b f)

encode_entries-push :
    (es : List Entry) (e : Entry)
    → encode_entries (es ++ e ∷ []) ≡ encode_entries es ++ encode_entry e
unfolding encode_entries
encode_entries-push [] e = append-nil (encode_entry e)
encode_entries-push (x ∷ es) e =
    ap (λ t. encode_entry x ++ t) (encode_entries-push es e)
    ∙ sym (append_assoc (encode_entry x) (encode_entries es) (encode_entry e))

push-IsCheckpoint :
    (cp : EpochCheckpoint) (e : Entry)
    → IsCheckpoint cp
    → IsU64 e.0
    → IsU64 e.1
    → follows (last cp.entries) e ≡ true
    → IsCheckpoint (push cp e)
unfolding push last contents
push-IsCheckpoint cp e h a b f = record {
  chain = last_from-IsChain none cp.entries e h.chain a b f;
  file = ap (λ t. t ++ encode_entry e) h.file ∙ sym (encode_entries-push cp.entries e);
}

take_below-IsChain :
    (new_next : ℕ) (prev : Option Entry) (es : List Entry)
    → IsChain prev es
    → IsChain prev (take_below new_next es)
unfolding take_below
take_below-IsChain new_next prev [] h = tt
take_below-IsChain new_next prev (e ∷ es) (h0, h1, f, hs) = elim (Bool-cases (ltb e.1 new_next)) [
  | inl a ↦ rw a (h0, h1, f, take_below-IsChain new_next (some e) es hs)
  | inr a ↦ rw a tt
]

-- Truncation keeps a checkpoint well formed.
pub truncate_to-IsCheckpoint :
    (cp : EpochCheckpoint) (new_next : ℕ) → IsCheckpoint cp → IsCheckpoint (truncate_to cp new_next)
unfolding truncate_to contents
truncate_to-IsCheckpoint cp new_next h =
    let kept = take_below new_next cp.entries in
    elim (Bool-cases (length kept == length cp.entries)) [
      | inl a ↦ rw a h
      | inr a ↦
          rw a (record { chain = take_below-IsChain new_next none cp.entries h.chain; file = refl })
    ]

-- What an append returns is well formed.
abbrev IsResult : Result EpochCheckpoint → Type 0
IsResult (ok cp) = IsCheckpoint cp
IsResult (err x) = Unit {0}

append-IsResult :
    (cp : EpochCheckpoint) (epoch start_offset : ℕ)
    → IsCheckpoint cp
    → IsU64 epoch
    → IsU64 start_offset
    → IsResult (append cp epoch start_offset)
unfolding append
append-IsResult cp epoch start_offset h a b = elim (Option-cases (last cp.entries)) [
  | inl l ↦
      rw (append, l)
        (push-IsCheckpoint cp (epoch, start_offset) h a b (rw l (unfold follows in refl)))
  | inr (l, f) ↦ elim (Bool-cases (epoch == l.0 && start_offset == l.1)) [
    | inl same ↦ rw (append, f, same) h
    | inr other ↦ elim (Bool-cases (leb epoch l.0 || ltb start_offset l.1)) [
      | inl bad ↦ rw (append, f, other, bad) tt
      | inr good ↦
          rw (append, f, other, good)
            (push-IsCheckpoint cp (epoch, start_offset) h a b
              (rw f (unfold follows in rw good refl)))
    ]
  ]
]

-- An append that succeeds keeps a checkpoint well formed.
pub append-IsCheckpoint :
    (cp cp' : EpochCheckpoint) (epoch start_offset : ℕ)
    → IsCheckpoint cp
    → IsU64 epoch
    → IsU64 start_offset
    → append cp epoch start_offset ≡ ok cp'
    → IsCheckpoint cp'
append-IsCheckpoint cp cp' epoch start_offset h a b e =
    subst IsResult e (append-IsResult cp epoch start_offset h a b)
