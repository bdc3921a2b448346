-- ===== src/Broker/Offsets.antt =====
-- src/broker/offsets.rs: committed offsets, kept in a log and replayed into a map. The map is the list
-- of its insertions, the latest first; the partition that holds the log appends what it is given.
pub mod Replay
use replog.Proto.Codes.{ErrorCode}
use replog.Prelude.{
  ℕ, ◌≡◌, Bool, true, false, ◌&&◌, Option, none, some, List, [], ◌∷◌, ◌++◌, length, ◌==◌,
  if◌then◌else◌,
}
use replog.Prelude.Maps.{same}
use replog.Proto.Result.{Result, ok, err}
use replog.Proto.Wire.{fields, put_str, put_u32, string, u32, expect_end}
use replog.Proto.Wire.Monad.{Reader, pure, ◌>>=◌, ◌>>◌}
use replog.Proto.Wire.Bytes.{le_bytes, from_le_bytes}

-- group, topic, partition
abbrev pub Key : Type 0
Key = List ℕ × List ℕ × ℕ

abbrev pub Cache : Type 0
Cache = List (Key × ℕ)

-- A record of the log: its key and its value.
abbrev pub Entry : Type 0
Entry = Option (List ℕ) × List ℕ

unfoldable pub encode_key : List ℕ → List ℕ → ℕ → List ℕ
encode_key group topic partition = fields (put_str group ∷ put_str topic ∷ put_u32 partition ∷ [])

unfoldable pub key_reader : Reader Key
key_reader = do
  group ← string
  topic ← string
  partition ← u32
  expect_end
  pure (group, topic, partition)

unfoldable pub decode_entry : List ℕ → List ℕ → Option (Key × ℕ)
decode_entry key value = elim (key_reader key) [
  | ok k ↦ if length value == 8 then some (k.0, from_le_bytes value) else none
  | err e ↦ none
]

-- The body of the loop of `open` for one record.
unfoldable pub replay_entry : Cache → Entry → Cache
replay_entry cache (none, value) = cache
replay_entry cache (some key, value) = elim (decode_entry key value) [
  | some e ↦ e ∷ cache
  | none ↦ cache
]

unfoldable pub replay : Cache → List Entry → Cache
replay cache [] = cache
replay cache (e ∷ es) = replay (replay_entry cache e) es

pub record OffsetsStore : Type 0 where
  pub log : List Entry
  pub cache : Cache

unfoldable pub open_store : List Entry → OffsetsStore
open_store log = record { log = log; cache = replay [] log }

-- `commit` where the append of the record succeeds.
unfoldable pub commit : OffsetsStore → List ℕ → List ℕ → ℕ → ℕ → OffsetsStore
commit store group topic partition offset = record {
  log = store.log ++ (some (encode_key group topic partition), le_bytes 8 offset) ∷ [];
  cache = ((group, topic, partition), offset) ∷ store.cache;
}

unfoldable pub same_key : Key → Key → Bool
same_key (g, t, p) (g', t', p') = same g g' && (same t t' && p == p')

unfoldable pub fetch_from : Cache → Key → Option ℕ
fetch_from [] k = none
fetch_from ((k', offset) ∷ cache) k = if same_key k k' then some offset else fetch_from cache k

unfoldable pub fetch : OffsetsStore → List ℕ → List ℕ → ℕ → Option ℕ
fetch store group topic partition = fetch_from store.cache (group, topic, partition)

-- The result of the append: the partition wrote the record, or it failed and left `rest` in its log.
pub data Appended : Type 0 where
  appended : Appended
  failed : ErrorCode → List Entry → Appended

-- `commit` with what the partition returned.
unfoldable pub finish_commit :
    OffsetsStore → List ℕ → List ℕ → ℕ → ℕ → Appended → OffsetsStore × ErrorCode
finish_commit store group topic partition offset appended =
    (commit store group topic partition offset, ErrorCode.none)
finish_commit store group topic partition offset (failed code rest) =
    (record store { log = store.log ++ rest }, code)
