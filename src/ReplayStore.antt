-- ===== src/ReplayStore.antt =====
-- crates/acp-mux/src/replay_store.rs: the file of a mux, one record to a line. What the core holds of it,
-- a list of records (`Core.RoomReplayStore`), is what a reading of the file gives.
pub mod Reload
use acp_mux.Base.{
  ℕ, String, Bool, true, false, ◌&&◌, List, [], ◌∷◌, ◌++◌, Option, none, some, if◌then◌else◌, leb,
  ltb, ◌==◌, eq_nat, u64_max, and_then,
}
use acp_mux.Json.{
  Value, Number, Fields, Items, num, str, obj, arr, field, end, pos_int, get_key, as_str,
  count_items,
}
use acp_mux.Jsonrpc.{struct_field, is_struct, ◌>>=◌, ◌>>◌, require}
use acp_mux.Host.{Host, Bytes, is_empty}
use acp_mux.Core.{PersistedFrame}
use acp_mux.Server.{pop_byte}

abbrev pub record_version : ℕ
record_version = 1

abbrev pub u32_max : ℕ
u32_max = 4294967295

-- The derived serialiser and deserialiser of `PersistedFrame`.
unfoldable pub record_to_value : PersistedFrame → Value
record_to_value r = obj (
    field "v" (num (pos_int r.v)) (
      field "seq" (num (pos_int r.seq)) (
        field "segment_id" (num (pos_int r.segment_id))
          (field "recorded_at" (str r.recorded_at) (field "frame" r.frame end)))))

unfoldable pub unsigned : ℕ → Value → Option ℕ
unsigned bound (num (pos_int n)) = if leb n bound then some n else none
unsigned bound _ = none

unfoldable pub record_of_value : Value → Option PersistedFrame
record_of_value value = do
  require (is_struct value 5)
  v ← struct_field value "v" 0 >>= unsigned u32_max
  seq ← struct_field value "seq" 1 >>= unsigned u64_max
  segment_id ← struct_field value "segment_id" 2 >>= unsigned u64_max
  recorded_at ← struct_field value "recorded_at" 3 >>= as_str
  frame ← struct_field value "frame" 4
  some (record {
    v = v;
    seq = seq;
    segment_id = segment_id;
    recorded_at = recorded_at;
    frame = frame;
  })

-- `BufRead::lines`: the last line may lack its line feed, and a carriage return falls away with a line
-- feed only. `begun` is the part of the line that was read.
abbrev pub without_return : Bytes → Bytes
without_return line = elim (pop_byte b'\r' line) [ none ↦ line | some front ↦ front ]

unfoldable pub lines_from : Bytes → Bytes → List Bytes
lines_from begun [] = if is_empty begun then [] else begun ∷ []
lines_from begun (b ∷ bs) =
    let line = without_return begun ∷ lines_from [] bs in
    let more = lines_from (begun ++ b ∷ []) bs in if b == b'\n' then line else more

abbrev pub keep : Option PersistedFrame → List PersistedFrame → List PersistedFrame
keep none rs = rs
keep (some r) rs = r ∷ rs

abbrev pub record_of : ℕ → ℕ → String → Value → PersistedFrame
record_of seq segment_id recorded_at frame = record {
  v = record_version;
  seq = seq;
  segment_id = segment_id;
  recorded_at = recorded_at;
  frame = frame;
}

module _ (h : Host) where
  -- One line: none for an error of the reading, an inner none for a line that is skipped.
  unfoldable pub load_line : Bytes → Option (Option PersistedFrame)
  load_line line = elim (h.from_utf8 line) [
    | none ↦ none
    | some t ↦
        if is_empty line then some none else elim (and_then (h.from_slice line) record_of_value) [
          | none ↦ some none
          | some r ↦ some (if r.v == record_version then some r else none)
        ]
  ]

  unfoldable pub load_lines : List Bytes → Option (List PersistedFrame)
  load_lines [] = some []
  load_lines (line ∷ ls) = do r ← load_line line; rs ← load_lines ls; some (keep r rs)

  -- `load_existing`, of a file that is there; a missing one holds nothing.
  unfoldable pub load_existing : Option Bytes → Option (List PersistedFrame)
  load_existing none = some []
  load_existing (some bytes) = load_lines (lines_from [] bytes)

  -- `append`: the file after a write that succeeds; none if the record cannot be printed.
  unfoldable pub append : ℕ → ℕ → String → Bytes → Bytes → Option Bytes
  append seq segment_id recorded_at frame file = elim (h.from_slice frame) [
    | none ↦ some file
    | some value ↦ elim (h.to_vec (record_to_value (record_of seq segment_id recorded_at value))) [
      | none ↦ none
      | some line ↦ some (file ++ line ++ b'\n' ∷ [])
    ]
  ]
