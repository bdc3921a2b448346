-- ===== src/Storage/Config/Parse.antt =====
-- src/storage/mod.rs: FsyncPolicy::parse. A text is the list of its bytes; the message of an error is its
-- reason.
use replog.Prelude.{
  ℕ, ◌<◌, ◌^◌, ◌≡◌, refl, Option, none, some, List, [], ◌∷◌, ◌++◌, ◌==◌, if◌then◌else◌, arith,
}
use replog.Prelude.Maps.{same}
use replog.Prelude.Decimal.{digits, parse_uint, IsDecimal, digits-IsDecimal, parse_uint-digits}
use replog.Storage.Config.{FsyncPolicy, always, os, batch}

pub data PolicyReason : Type 0 where
  unknown_policy batch_form batch_bytes batch_ms : PolicyReason

pub data Parsed : Type 0 where
  parsed : FsyncPolicy → Parsed
  refused : PolicyReason → Parsed

-- `always`, `os` and `batch:`
abbrev always_text : List ℕ
always_text = 97 ∷ 108 ∷ 119 ∷ 97 ∷ 121 ∷ 115 ∷ []

abbrev os_text : List ℕ
os_text = 111 ∷ 115 ∷ []

abbrev batch_text : List ℕ
batch_text = 98 ∷ 97 ∷ 116 ∷ 99 ∷ 104 ∷ 58 ∷ []

unfoldable pub strip_prefix : List ℕ → List ℕ → Option (List ℕ)
strip_prefix [] s = some s
strip_prefix (p ∷ ps) [] = none
strip_prefix (p ∷ ps) (c ∷ cs) = let rest = strip_prefix ps cs in if c == p then rest else none

abbrev pub put_before : ℕ → Option (List ℕ × List ℕ) → Option (List ℕ × List ℕ)
put_before c none = none
put_before c (some (xs, ys)) = some (c ∷ xs, ys)

-- `split_once(':')`
unfoldable pub split_once : List ℕ → Option (List ℕ × List ℕ)
split_once [] = none
split_once (c ∷ cs) =
    let rest = put_before c (split_once cs) in if c == 58 then some ([], cs) else rest

unfoldable pub parse_values : Option ℕ → Option ℕ → Parsed
parse_values none ms = refused batch_bytes
parse_values (some max_bytes) none = refused batch_ms
parse_values (some max_bytes) (some max_ms) = parsed (batch max_bytes max_ms)

unfoldable pub parse_parts : Option (List ℕ × List ℕ) → Parsed
unfolding parse_values
parse_parts none = refused batch_form
parse_parts (some (bytes, ms)) = parse_values (parse_uint 64 bytes) (parse_uint 64 ms)

unfoldable pub parse_batch : Option (List ℕ) → Parsed
unfolding parse_parts
parse_batch none = refused unknown_policy
parse_batch (some rest) = parse_parts (split_once rest)

unfoldable pub parse : List ℕ → Parsed
unfolding parse_batch
parse s =
    if same s always_text
    then parsed always
    else if same s os_text
    then parsed os
    else parse_batch (strip_prefix batch_text s)

-- The text of a policy: `always`, `os` or `batch:<bytes>:<ms>`.
abbrev pub text : FsyncPolicy → List ℕ
text always = always_text
text os = os_text
text (batch max_bytes max_ms) = batch_text ++ digits 20 max_bytes [] ++ 58 ∷ digits 20 max_ms []

-- The numbers of a policy are 64-bit words.
abbrev pub IsWord : FsyncPolicy → Type 0
IsWord always = Unit {0}
IsWord os = Unit {0}
IsWord (batch max_bytes max_ms) = (max_bytes < 2 ^ 64) × (max_ms < 2 ^ 64)

split_once-append : (xs ys : List ℕ) → IsDecimal xs → split_once (xs ++ 58 ∷ ys) ≡ some (xs, ys)
unfolding split_once
split_once-append [] ys h = refl
split_once-append (x ∷ xs) ys ((low, high), h) = ground (arith, split_once-append xs ys h)

-- A policy is read from its text.
pub parse-text : (policy : FsyncPolicy) → IsWord policy → parse (text policy) ≡ parsed policy
unfolding parse parse_batch strip_prefix parse_parts parse_values
parse-text always h = refl
parse-text os h = refl
parse-text (batch max_bytes max_ms) (fits, fits') =
    rw
      (
        split_once-append (digits 20 max_bytes []) (digits 20 max_ms [])
            (digits-IsDecimal 20 max_bytes [] tt),
        parse_uint-digits 64 max_bytes fits (omega arith),
        parse_uint-digits 64 max_ms fits' (omega arith),
      )
      refl
