-- ===== src/Tests/Dates.antt =====
-- The theorem on dates, on the last day of February in a leap year.
use acp_mux.Calendar.Stamp.{system_time_to_rfc3339_utc}
use acp_mux.Base.{◌+◌, ◌≡◌, refl}
use acp_mux.Calendar.{civil_from_days}
use acp_mux.Calendar.Gregorian.{next_day, civil_from_days-suc}

leap_day_2024 : civil_from_days 19782 ≡ record { year = 2024; month = 2; day = 29 }
unfolding civil_from_days
leap_day_2024 = refl

civil_from_days-suc_example :
    (civil_from_days 0 ≡ record { year = 1970; month = 1; day = 1 })
    × (civil_from_days (19782 + 1) ≡ next_day (civil_from_days 19782))
civil_from_days-suc_example = civil_from_days-suc 19782

-- 2023-11-14, a little after ten in the evening.
stamp_of_a_second : system_time_to_rfc3339_utc 1700000000 5 ≡ "2023-11-14T22:13:20.000000005Z"
unfolding system_time_to_rfc3339_utc
stamp_of_a_second = refl
