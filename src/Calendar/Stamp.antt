-- ===== src/Calendar/Stamp.antt =====
-- crates/acp-mux/src/mux/actor.rs: `system_time_to_rfc3339_utc`, the printing of a time stamp from the
-- seconds and nanoseconds since 1970. A time before 1970 counts as 1970.
use Prim.Native.String.{String, ◌++◌}
use acp_mux.Base.{ℕ, zero, suc, ◌-◌, ◌/◌, ◌%◌}
use acp_mux.Calendar.{civil_from_days}
use acp_mux.Text.{decimal}

abbrev pub char_count : String → ℕ
char_count String.[] = 0
char_count (String.◌∷◌ c s) = suc (char_count s)

unfoldable pub zeros : ℕ → String
zeros zero = ""
zeros (suc n) = "0" ++ zeros n

-- `{n:0width}`.
unfoldable pub padded : ℕ → ℕ → String
unfolding zeros decimal
padded width n = zeros (width - char_count (decimal n)) ++ decimal n

unfoldable pub system_time_to_rfc3339_utc : ℕ → ℕ → String
unfolding padded civil_from_days
system_time_to_rfc3339_utc total_secs nanos =
    let secs_of_day = total_secs % 86400 in
    let date = civil_from_days (total_secs / 86400) in
    padded 4 date.year
    ++ "-"
    ++ padded 2 date.month
    ++ "-"
    ++ padded 2 date.day
    ++ "T"
    ++ padded 2 (secs_of_day / 3600)
    ++ ":"
    ++ padded 2 (secs_of_day % 3600 / 60)
    ++ ":"
    ++ padded 2 (secs_of_day % 60)
    ++ "."
    ++ padded 9 nanos
    ++ "Z"
