-- ===== src/Broker/Offsets/Replay.antt =====
-- The map replayed from the log is the map that the commits made.
use replog.Prelude.Maps.Laws.{same_refl}
use replog.Prelude.{ℕ, ◌≡◌, refl, ap, ◌∙◌, some, List, [], ◌∷◌, ◌++◌, arith}
use replog.Proto.Result.{ok}
use replog.Proto.Wire.{fields, put_str, put_u32, expect_end}
use replog.Proto.Wire.Monad.{◌>>=◌}
use replog.Proto.Wire.Bytes.{le_bytes, length-le_bytes, from_le_bytes-le_bytes}
use replog.Proto.Wire.Primitives.{IsU32, IsU64, IsString, Reads-string, Reads-u32}
use replog.Broker.Offsets.{
  Cache, Entry, encode_key, key_reader, decode_entry, replay_entry, replay, open_store, commit,
  OffsetsStore, appended, finish_commit, fetch, fetch_from, same_key,
}

-- A commit that the wire's fields hold.
pub record IsCommit (group topic : List ℕ) (partition offset : ℕ) : Type 0 where
  pub named : IsString group × IsString topic
  pub numbers : IsU32 partition × IsU64 offset

key_reader-encode :
    (group topic : List ℕ) (partition offset : ℕ)
    → IsCommit group topic partition offset
    → key_reader (encode_key group topic partition) ≡ ok ((group, topic, partition), [])
unfolding key_reader encode_key fields ◌>>=◌ expect_end
key_reader-encode group topic partition offset h =
    let last = put_u32 partition ++ [] in
    rw
      (
        (Reads-string group h.named.0).at (put_str topic ++ last),
        (Reads-string topic h.named.1).at last,
        (Reads-u32 partition h.numbers.0).at [],
      )
      refl

-- A commit in range is decoded from the record that it wrote.
pub decode_entry-encode :
    (group topic : List ℕ) (partition offset : ℕ)
    → IsCommit group topic partition offset
    → decode_entry (encode_key group topic partition) (le_bytes 8 offset)
      ≡ some ((group, topic, partition), offset)
unfolding decode_entry
decode_entry-encode group topic partition offset h =
    rw
      (
        decode_entry,
        key_reader-encode group topic partition offset h,
        length-le_bytes 8 offset,
        from_le_bytes-le_bytes 8 offset h.numbers.1,
      )
      refl

replay-append :
    (cache : Cache) (es : List Entry) (e : Entry)
    → replay cache (es ++ e ∷ []) ≡ replay_entry (replay cache es) e
unfolding replay
replay-append cache [] e = refl
replay-append cache (x ∷ es) e = replay-append (replay_entry cache x) es e

-- A store that was opened, and then committed to, has the map that it has when it is opened again.
pub open_store-commit :
    (log : List Entry) (group topic : List ℕ) (partition offset : ℕ)
    → IsCommit group topic partition offset
    → let store = commit (open_store log) group topic partition offset in
      open_store store.log ≡ store
unfolding commit open_store replay_entry
open_store-commit log group topic partition offset h =
    let e : Entry = (some (encode_key group topic partition), le_bytes 8 offset) in
    ap (λ c. record { log = log ++ e ∷ []; cache = c })
      (replay-append [] log e
        ∙ (rw (replay_entry, decode_entry-encode group topic partition offset h) refl))

fetch-commit :
    (store : OffsetsStore) (group topic : List ℕ) (partition offset : ℕ)
    → fetch (commit store group topic partition offset) group topic partition ≡ some offset
unfolding fetch commit fetch_from same_key
fetch-commit store group topic partition offset = ground (arith, same_refl group, same_refl topic)

-- A commit whose record was written is fetched after the store is opened again.
pub fetch-open_store :
    (log : List Entry) (group topic : List ℕ) (partition offset : ℕ)
    → IsCommit group topic partition offset
    → let after = (finish_commit (open_store log) group topic partition offset appended).0 in
      fetch (open_store after.log) group topic partition ≡ some offset
unfolding finish_commit
fetch-open_store log group topic partition offset h =
    ap (λ store. fetch store group topic partition)
      (open_store-commit log group topic partition offset h)
    ∙ fetch-commit (open_store log) group topic partition offset
