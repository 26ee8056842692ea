-- ===== src/Calendar.antt =====
-- crates/acp-mux/src/mux/actor.rs: the dates of the time stamps, from the days since 1970-01-01. The one
-- caller passes a number of days that is not negative.
pub mod Gregorian
pub mod Stamp
use acp_mux.Base.{
  ℕ, ◌+◌, ◌-◌, ◌*◌, ◌/◌, ◌≤◌, ◌<◌, ◌≡◌, refl, Bool, true, false, if◌then◌else◌, ltb, leb, nat_eq,
  suc, ◌⊎◌, inl, inr, sym, ap, ◌∙◌, Bool-cases, ◌%◌, ◌^◌, arith,
}

pub record Civil : Type 0 where
  pub year : ℕ
  pub month : ℕ
  pub day : ℕ

unfoldable pub year_of_era : ℕ → ℕ
year_of_era doe = (doe - doe / 1460 + doe / 36524 - doe / 146096) / 365

unfoldable pub day_of_year : ℕ → ℕ
day_of_year doe = let yoe = year_of_era doe in doe - (365 * yoe + yoe / 4 - yoe / 100)

-- The date of a day of a year that starts in March.
unfoldable pub date_in_year : ℕ → ℕ → Civil
date_in_year year doy =
    let mp = (5 * doy + 2) / 153 in
    let day = doy - (153 * mp + 2) / 5 + 1 in
    let month = if ltb mp 10 then mp + 3 else mp - 9 in
    record { year = if leb month 2 then year + 1 else year; month = month; day = day }

unfoldable pub civil_from_days : ℕ → Civil
unfolding date_in_year year_of_era day_of_year
civil_from_days days =
    let z = days + 719468 in
    let era = z / 146097 in
    let doe = z - era * 146097 in date_in_year (year_of_era doe + era * 400) (day_of_year doe)
