-- ===== src/Calendar/Gregorian.antt =====
-- The dates of crates/acp-mux/src/mux/actor.rs are those of the Gregorian calendar.
use acp_mux.Base.{
  ℕ, ◌+◌, ◌-◌, ◌*◌, ◌/◌, ◌≤◌, ◌<◌, ◌≡◌, refl, if◌then◌else◌, ltb, nat_eq, ◌⊎◌, inl, inr, sym, ap,
  ◌∙◌, Bool-cases, ◌%◌, arith,
}
use acp_mux.Calendar.{Civil, year_of_era, day_of_year, date_in_year, civil_from_days}

-- The Gregorian calendar.
abbrev pub leap_day : ℕ → ℕ
leap_day y =
    if nat_eq (y % 400) 0
    then 1
    else if nat_eq (y % 100) 0
    then 0
    else if nat_eq (y % 4) 0
    then 1
    else 0

abbrev pub days_in_month : ℕ → ℕ → ℕ
days_in_month y m =
    if nat_eq m 2
    then 28 + leap_day y
    else if nat_eq m 4
    then 30
    else if nat_eq m 6
    then 30
    else if nat_eq m 9
    then 30
    else if nat_eq m 11
    then 30
    else 31

-- The number of the days before a year that starts in March, and before its month of that number.
unfoldable pub days_before : ℕ → ℕ
days_before y = 365 * y + y / 4 - y / 100 + y / 400

short_year : (doe : ℕ) → doe < 146097 → day_of_year doe < 365 + leap_day (year_of_era doe + 1)
unfolding day_of_year year_of_era
short_year doe b = ground arith

same_year :
    (doe : ℕ)
    → doe < 146096
    → day_of_year doe + 1 < 365 + leap_day (year_of_era doe + 1)
    → (year_of_era (doe + 1) ≡ year_of_era doe) × (day_of_year (doe + 1) ≡ day_of_year doe + 1)
unfolding day_of_year year_of_era
same_year doe b l = (ground arith, ground arith)

next_year :
    (doe : ℕ)
    → doe < 146096
    → day_of_year doe + 1 ≡ 365 + leap_day (year_of_era doe + 1)
    → (year_of_era (doe + 1) ≡ year_of_era doe + 1) × (day_of_year (doe + 1) ≡ 0)
unfolding day_of_year year_of_era
next_year doe b l = (ground arith, ground arith)

unfoldable pub next_day : Civil → Civil
next_day c =
    if ltb c.day (days_in_month c.year c.month)
    then record c { day = c.day + 1 }
    else if ltb c.month 12
    then record { year = c.year; month = c.month + 1; day = 1 }
    else record { year = c.year + 1; month = 1; day = 1 }

-- The months from March on, and the day of the year with which each begins.
abbrev month_start : ℕ → ℕ
month_start k = (153 * k + 2) / 5

abbrev in_month : ℕ → ℕ → ℕ → Civil
in_month y k day = record {
  year = if ltb k 10 then y else y + 1;
  month = if ltb k 10 then k + 3 else k - 9;
  day = day;
}

date_at :
    (y d k : ℕ)
    → k < 12
    → month_start k ≤ d
    → d < month_start (k + 1)
    → date_in_year y d ≡ in_month y k (d - month_start k + 1)
unfolding date_in_year
date_at y d k b l u = let m : (5 * d + 2) / 153 ≡ k = omega arith in rw m (ground arith)

within_month :
    (y k day : ℕ)
    → k < 12
    → day + month_start k < month_start (k + 1)
    → (k < 11) ⊎ (day < 28 + leap_day (y + 1))
    → in_month y k (day + 1) ≡ next_day (in_month y k day)
unfolding next_day
within_month y k day b l f = ground arith

next_month :
    (y k day : ℕ)
    → k < 11
    → day + month_start k ≡ month_start (k + 1)
    → in_month y (k + 1) 1 ≡ next_day (in_month y k day)
unfolding next_day
next_month y k day b e = ground arith

date_wrap :
    (y d : ℕ)
    → d + 1 ≡ 365 + leap_day (y + 1)
    → date_in_year (y + 1) 0 ≡ next_day (date_in_year y d)
unfolding date_in_year next_day
date_wrap y d l = ground arith

date-suc :
    (y d : ℕ)
    → d + 1 < 365 + leap_day (y + 1)
    → date_in_year y (d + 1) ≡ next_day (date_in_year y d)
date-suc y d l = elim (Bool-cases (ltb (d + 1) (month_start (month_of d + 1)))) [
  | inl within ↦
      date_at y (d + 1) (month_of d) in_year (omega arith) (ground arith)
      ∙ ap (in_month y (month_of d)) day_after
      ∙ within_month y (month_of d) (d - month_start (month_of d) + 1) in_year (ground arith)
          (ground arith)
      ∙ ap next_day (sym today)
  | inr over ↦
      date_at y (d + 1) (month_of d + 1) (ground arith) (ground arith) (ground arith)
      ∙ ap (in_month y (month_of d + 1)) (ground arith)
      ∙ next_month y (month_of d) (d - month_start (month_of d) + 1) (ground arith) (ground arith)
      ∙ ap next_day (sym today)
]
  where
    month_of : ℕ → ℕ
    month_of e = (5 * e + 2) / 153

    in_year : month_of d < 12
    in_year = ground arith

    today : date_in_year y d ≡ in_month y (month_of d) (d - month_start (month_of d) + 1)
    today = date_at y d (month_of d) in_year (omega arith) (omega arith)

    day_after : d + 1 - month_start (month_of d) + 1 ≡ d - month_start (month_of d) + 1 + 1
    day_after = omega arith

abbrev on_day : ℕ → ℕ → Civil
on_day era doe = date_in_year (year_of_era doe + era * 400) (day_of_year doe)

-- Leap years come again every 400 years.
leap_again : (y era : ℕ) → leap_day (y + era * 400 + 1) ≡ leap_day (y + 1)
leap_again y era = ground arith

within_era : (era doe : ℕ) → doe < 146096 → on_day era (doe + 1) ≡ next_day (on_day era doe)
within_era era doe b =
    elim (Bool-cases (ltb (day_of_year doe + 1) (365 + leap_day (year_of_era doe + 1)))) [
      | inl within ↦
          let (y, d) = same_year doe b (ground arith) in
          rw (y, d)
            (date-suc (year_of_era doe + era * 400) (day_of_year doe)
              (rw (leap_again (year_of_era doe) era) (ground arith)))
      | inr over ↦
          let last : day_of_year doe + 1 ≡ 365 + leap_day (year_of_era doe + 1) =
            ground (arith, short_year doe (omega arith)) in
          let (y, d) = next_year doe b last in
          rw (y, d)
            (ap (λ n. date_in_year n 0) (omega arith)
              ∙ date_wrap (year_of_era doe + era * 400) (day_of_year doe)
                  (last ∙ ap (λ n. 365 + n) (sym (leap_again (year_of_era doe) era))))
    ]

next_era : (era : ℕ) → on_day (era + 1) 0 ≡ next_day (on_day era 146096)
unfolding year_of_era day_of_year
next_era era =
    ap (λ n. date_in_year n 0) (omega arith)
    ∙ date_wrap (399 + era * 400) 365 (ap (λ n. 365 + n) (sym (leap_again 399 era)))

-- The date of a day since 0000-03-01.
abbrev on_day_since : ℕ → Civil
on_day_since z = on_day (z / 146097) (z - z / 146097 * 146097)

next_since : (z : ℕ) → on_day_since (z + 1) ≡ next_day (on_day_since z)
next_since z = elim (Bool-cases (ltb (z - era * 146097) 146096)) [
  | inl within ↦
      ap (λ e. on_day e (z + 1 - e * 146097)) (ground arith)
      ∙ ap (on_day era) (omega arith)
      ∙ within_era era (z - era * 146097) (ground arith)
  | inr over ↦
      ap (λ e. on_day e (z + 1 - e * 146097)) (ground arith)
      ∙ ap (on_day (era + 1)) (ground arith)
      ∙ next_era era
      ∙ ap (λ e. next_day (on_day era e)) (ground arith)
]
  where
    era : ℕ
    era = z / 146097

-- The first day is 1970-01-01, and each day's date is the next one after the date of the day before, by
-- the rules of the Gregorian calendar.
pub civil_from_days-suc :
    (n : ℕ)
    → (civil_from_days 0 ≡ record { year = 1970; month = 1; day = 1 })
      × (civil_from_days (n + 1) ≡ next_day (civil_from_days n))
unfolding civil_from_days year_of_era day_of_year
civil_from_days-suc n = (refl, ap on_day_since (omega arith) ∙ next_since (n + 719468))
