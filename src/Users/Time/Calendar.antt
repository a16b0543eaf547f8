-- ===== src/Users/Time/Calendar.antt =====
-- About `days_to_ymd` (capsules/capsule-users/src/time.rs), against the Gregorian calendar.
use unicity_aos.Base.{
  ℕ, ◌+◌, ◌-◌, ◌*◌, ◌/◌, ◌%◌, ◌≤◌, ◌<◌, ◌≡◌, refl, true, false, ltb, leb, if◌then◌else◌, arith,
  Bool-cases, inl, inr, ltb→lt, ◌∙◌, ◌^◌, subst, sym, ap,
}
use unicity_aos.Users.Time.{
  Date, as_i32, with_i32_year, days_to_ymd, date_at, day_of_era, year_of_era, day_of_year,
  month_from_march,
}
use unicity_aos.Users.Time.Gregorian.{
  is_leap, days_in_month, march_year, march_month, days_from_civil, IsDate, year_of_era-lt,
  day_of_year-le, year_start, leap_end,
}

-- The months from March on have these lengths.
month_lengths :
    (doy : ℕ)
    → doy ≤ 365
    → (let mp = month_from_march doy in
        let d = doy - (153 * mp + 2) / 5 + 1 in
        (mp ≤ 11)
        × (d ≤ 31)
        × (mp ≡ 1 → d ≤ 30)
        × (mp ≡ 3 → d ≤ 30)
        × (mp ≡ 6 → d ≤ 30)
        × (mp ≡ 8 → d ≤ 30)
        × (mp ≡ 11 → d ≤ 29)
        × (mp ≡ 11 → doy < 365 → d ≤ 28))
month_lengths doy l = (
  omega arith,
  omega arith,
  λ e. omega arith,
  λ e. omega arith,
  λ e. omega arith,
  λ e. omega arith,
  λ e. omega arith,
  λ e h. omega arith,
)

-- The tests of `days_in_month` on the month that `date_at` gives.
month_fits :
    (y mp d : ℕ)
    → mp ≤ 11
    → d ≤ 31
    → (mp ≡ 1 → d ≤ 30)
    → (mp ≡ 3 → d ≤ 30)
    → (mp ≡ 6 → d ≤ 30)
    → (mp ≡ 8 → d ≤ 30)
    → (mp ≡ 11 → d ≤ 29)
    → (mp ≡ 11 → is_leap (y + 1) ≡ false → d ≤ 28)
    → (let m = if ltb mp 10 then mp + 3 else mp - 9 in
        d ≤ days_in_month (if leb m 2 then y + 1 else y) m)
month_fits y mp d a b e f g h i j = ground arith

march_year_lem : (y doy mp : ℕ) → mp ≤ 11 → march_year (date_at y doy mp) ≡ y
unfolding date_at
march_year_lem y doy mp l = ground arith

march_month_lem : (y doy mp : ℕ) → mp ≤ 11 → march_month (date_at y doy mp) ≡ mp
unfolding date_at
march_month_lem y doy mp l = ground arith

month_bounds :
    (mp : ℕ) → mp ≤ 11 → (let m = if ltb mp 10 then mp + 3 else mp - 9 in (1 ≤ m) × (m ≤ 12))
month_bounds mp l = (ground arith, ground arith)

date_at-IsDate :
    (y doy : ℕ)
    → doy ≤ 365
    → (doy ≡ 365 → is_leap (y + 1) ≡ true)
    → IsDate (date_at y doy (month_from_march doy))
unfolding date_at
date_at-IsDate y doy l leap =
    let (le, a, b, c, d, e, f, g) = month_lengths doy l in
    let mp = month_from_march doy in
    let common = λ (h : mp ≡ 11) (n : is_leap (y + 1) ≡ false).
      let short : doy < 365 = elim (Bool-cases (ltb doy 365)) [
        | inl q ↦ ltb→lt doy 365 q
        | inr q ↦ let full : doy ≡ 365 = ground arith in absurd (cc (leap full))
      ] in
      g h short in
    (
      (month_bounds mp le).0,
      (month_bounds mp le).1,
      omega arith,
      month_fits y mp (doy - (153 * mp + 2) / 5 + 1) le a b c d e f common,
    )

date_at_day : (y doy mp : ℕ) → (date_at y doy mp).day ≡ doy - (153 * mp + 2) / 5 + 1
unfolding date_at
date_at_day y doy mp = refl

days_from_civil-date_at :
    (y doy : ℕ)
    → doy ≤ 365
    → days_from_civil (date_at y doy (month_from_march doy))
      ≡ 365 * y + y / 4 - y / 100 + y / 400 + doy - 719_468
days_from_civil-date_at y doy l =
    let mp = month_from_march doy in
    let le : mp ≤ 11 = omega arith in
    rw (march_year_lem y doy mp le, march_month_lem y doy mp le, date_at_day y doy mp) (omega arith)

-- The days of whole eras of 400 years, of whole years and of the last year add up.
days_add :
    (days yoe doe era : ℕ)
    → yoe < 400
    → 365 * yoe + yoe / 4 - yoe / 100 ≤ doe
    → days + 719_468 ≡ era * 146_097 + doe
    → (let y = yoe + era * 400 in
        let doy = doe - (365 * yoe + yoe / 4 - yoe / 100) in
        365 * y + y / 4 - y / 100 + y / 400 + doy - 719_468 ≡ days)
days_add days yoe doe era a b e = omega arith

-- The years that fit.
as_i32_small : (d : Date) → d.year < 2 ^ 31 → with_i32_year d ≡ d
unfolding as_i32
as_i32_small d l = let e : d.year % 2 ^ 32 ≡ d.year = omega arith in rw e refl

date_at_year-le : (y doy mp : ℕ) → (date_at y doy mp).year ≤ y + 1
unfolding date_at
date_at_year-le y doy mp = ground arith

-- The days from 1970-01-01 to the end of the year 2^31 - 1.
abbrev pub max_days : ℕ
max_days = 784_351_576_776

years_from :
    (y days : ℕ)
    → 2 ^ 31 ≤ y + 1
    → 365 * y + y / 4 - y / 100 + y / 400 + days - 719_468 ≤ max_days
    → (y ≡ 2 ^ 31 - 1) × (days < 306)
years_from y days l h = (omega arith, omega arith)

-- A day that is not after the last one stands in a year that fits.
year_fits : (d : Date) → 1 ≤ d.month → days_from_civil d ≤ max_days → d.year < 2 ^ 31
year_fits d m h = elim (Bool-cases (ltb d.year (2 ^ 31))) [
  | inl q ↦ ltb→lt d.year (2 ^ 31) q
  | inr q ↦ elim (Bool-cases (leb d.month 2)) [
    | inl e ↦
        let h' : 365 * (d.year - 1)
              + (d.year - 1) / 4
              - (d.year - 1) / 100
              + (d.year - 1) / 400
              + ((153 * (d.month + 9) + 2) / 5 + (d.day - 1))
              - 719_468
            ≤ max_days =
          ground (arith, h, e) in
        let (a, b) = years_from (d.year - 1) _ (ground (arith, q)) h' in absurd (omega arith)
    | inr e ↦
        let h' : 365 * d.year
              + d.year / 4
              - d.year / 100
              + d.year / 400
              + ((153 * (d.month - 3) + 2) / 5 + (d.day - 1))
              - 719_468
            ≤ max_days =
          ground (arith, h, e) in
        let (a, b) = years_from d.year _ (ground (arith, q)) h' in absurd (ground (arith, q, a))
  ]
]

-- For every day from 1970-01-01 to the last one of the year 2^31 - 1, the conversion gives a date of
-- the Gregorian calendar, with the lengths of its months and its leap years, and it is the date of
-- that day: the days before the date add up to the day that was given. The year is the number that
-- its 32 bits stand for.
pub days_to_ymd_lem :
    (days : ℕ)
    → days ≤ max_days
    → IsDate (days_to_ymd days)
      × (days_from_civil (days_to_ymd days) ≡ days)
      × ((days_to_ymd days).year < 2 ^ 31)
unfolding days_to_ymd
days_to_ymd_lem days bound =
    let z = days + 719_468 in
    let era = z / 146_097 in
    let doe = day_of_era z in
    let less : doe < 146_097 = omega arith in
    let split : z ≡ era * 146_097 + doe = omega arith in
    let doy_le = day_of_year-le doe less in
    let y = year_of_era doe + era * 400 in
    let date = date_at y (day_of_year doe) (month_from_march (day_of_year doe)) in
    let is_date = date_at-IsDate y (day_of_year doe) doy_le (leap_end era doe less) in
    let same =
      days_from_civil-date_at y (day_of_year doe) doy_le
      ∙ days_add days (year_of_era doe) doe era (year_of_era-lt doe less) (year_start doe less)
          split in
    let fits : date.year < 2 ^ 31 = year_fits date is_date.0 (rw same bound) in
    let exact = as_i32_small date fits in
    (
      subst IsDate (sym exact) is_date,
      ap days_from_civil exact ∙ same,
      subst (λ d. d.year < 2 ^ 31) (sym exact) fits,
    )
