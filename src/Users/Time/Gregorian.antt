-- ===== src/Users/Time/Gregorian.antt =====
-- The Gregorian calendar, and the eras of 400 years of capsules/capsule-users/src/time.rs.
use unicity_aos.Base.{
  ℕ, ◌+◌, ◌-◌, ◌*◌, ◌/◌, ◌%◌, ◌≤◌, ◌<◌, ◌≡◌, refl, Bool, true, not, ◌&&◌, ◌||◌, leb, ◌==◌,
  if◌then◌else◌, arith, Bool-cases, inl, inr, ==_iff,
}
use unicity_aos.Users.Time.{Date, year_of_era, day_of_year}

abbrev pub is_leap : ℕ → Bool
is_leap y = y % 4 == 0 && (not (y % 100 == 0) || y % 400 == 0)

abbrev pub days_in_month : ℕ → ℕ → ℕ
days_in_month y m =
    if m == 2
    then if is_leap y then 29 else 28
    else if m == 4 || m == 6 || m == 9 || m == 11
    then 30
    else 31

-- The days from 0000-03-01 to a date, by the rule of leap years, less those to 1970-01-01. The year
-- is counted from March on, so that a leap day ends it.
abbrev pub march_year : Date → ℕ
march_year d = if leb d.month 2 then d.year - 1 else d.year

abbrev pub march_month : Date → ℕ
march_month d = if leb d.month 2 then d.month + 9 else d.month - 3

abbrev pub days_from_civil : Date → ℕ
days_from_civil d =
    let y = march_year d in
    365 * y + y / 4 - y / 100 + y / 400 + (153 * march_month d + 2) / 5 + (d.day - 1) - 719_468

pub year_of_era-lt : (doe : ℕ) → doe < 146_097 → year_of_era doe < 400
year_of_era-lt doe l = omega arith

pub day_of_year-le : (doe : ℕ) → doe < 146_097 → day_of_year doe ≤ 365
day_of_year-le doe l = omega arith

pub year_start :
    (doe : ℕ)
    → doe < 146_097
    → 365 * year_of_era doe + year_of_era doe / 4 - year_of_era doe / 100 ≤ doe
year_start doe l = omega arith

-- A year of 366 days from March on ends in a leap year.
leap_4 : (doe : ℕ) → doe < 146_097 → day_of_year doe ≡ 365 → (year_of_era doe + 1) % 4 ≡ 0
leap_4 doe l e = omega arith

leap_100 :
    (doe : ℕ)
    → doe < 146_097
    → day_of_year doe ≡ 365
    → (year_of_era doe + 1) % 100 ≡ 0
    → year_of_era doe ≡ 399
leap_100 doe l e h = omega arith

pub leap_end :
    (era doe : ℕ)
    → doe < 146_097
    → day_of_year doe ≡ 365
    → is_leap (year_of_era doe + era * 400 + 1) ≡ true
leap_end era doe l e =
    let y = year_of_era doe + era * 400 + 1 in
    let four : y % 4 ≡ 0 = omega (arith, leap_4 doe l e) in
    elim (Bool-cases (y % 100 == 0)) [
      | inr q ↦ rw (four, q) refl
      | inl q ↦
          let century : (year_of_era doe + 1) % 100 ≡ 0 = omega (arith, (==_iff _ _).0 q) in
          let last = leap_100 doe l e century in
          let all : y % 400 ≡ 0 = omega (arith, last) in rw (four, q, all) refl
    ]

-- The day stands in the Gregorian calendar.
abbrev pub IsDate : Date → Type 0
IsDate d = (1 ≤ d.month) × (d.month ≤ 12) × (1 ≤ d.day) × (d.day ≤ days_in_month d.year d.month)
