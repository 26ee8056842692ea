-- ===== src/Tests/Stores.antt =====
-- A file of one record, to which a frame is appended.
use acp_mux.Base.{◌≡◌, refl, [], ◌∷◌, none, some, arith, inl, ◌==◌, eq_nat, if◌then◌else◌, true}
use acp_mux.Json.{Value, bool}
use acp_mux.Host.{Host, Bytes}
use acp_mux.Server.{pop_byte}
use acp_mux.ReplayStore.{record_to_value, record_of, append, load_existing, load_lines, lines_from}
use acp_mux.ReplayStore.Reload.{IsPrinted, IsComplete, append-load}
use acp_mux.Tests.{host}

abbrev frame_value : Value
frame_value = bool true

-- The disk holds the record of frame number 7 in the second segment as the byte 9.
abbrev first_record : Value
first_record = record_to_value (record_of 7 2 "2026-01-01T00:00:00Z" frame_value)

abbrev disk : Host
disk = record host {
  from_slice = λ bytes. elim bytes [
    | [] ↦ none
    | b ∷ bs ↦ if b == 9 then some first_record else some frame_value
  ];
}

first-IsPrinted : IsPrinted disk first_record (9 ∷ [])
unfolding pop_byte
first-IsPrinted = record {
  text = "{}";
  is_text = refl;
  nonempty = refl;
  one_line = ground arith;
  no_return = refl;
  parses = refl;
}

append-load_example :
    (after : Bytes) × (append disk 7 2 "2026-01-01T00:00:00Z" (4 ∷ []) [] ≡ some after)
    × IsComplete after
    × (load_existing disk (some after)
        ≡ some (record_of 7 2 "2026-01-01T00:00:00Z" frame_value ∷ []))
unfolding load_existing load_lines lines_from
append-load_example =
    append-load disk [] (4 ∷ []) (9 ∷ []) 7 2 "2026-01-01T00:00:00Z" frame_value [] (inl refl) refl
      refl refl (omega arith) (omega arith) first-IsPrinted
