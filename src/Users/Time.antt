-- ===== src/Users/Time.antt =====
-- The time stamps of records, capsules/capsule-users/src/time.rs, for times from the epoch on, which
-- are those that `now_rfc3339` formats.
pub mod Gregorian
pub mod Calendar
mod Tests
use unicity_aos.Base.{
  ℕ, zero, suc, ◌+◌, ◌-◌, ◌*◌, ◌/◌, ◌%◌, ◌^◌, List, [], ◌∷◌, ◌++◌, length, ltb, leb, if◌then◌else◌,
  codes,
}
use unicity_aos.Base.Text.{Text}
use unicity_aos.Base.Decimal.{print}

pub record Date : Type 0 where
  pub year : ℕ
  pub month : ℕ
  pub day : ℕ

-- `doe`, `yoe`, `doy` and `mp` of the source, by the days since 0000-03-01.
abbrev pub day_of_era : ℕ → ℕ
day_of_era z = z % 146_097

abbrev pub year_of_era : ℕ → ℕ
year_of_era doe = (doe - doe / 1460 + doe / 36_524 - doe / 146_096) / 365

abbrev pub day_of_year : ℕ → ℕ
day_of_year doe = doe - (365 * year_of_era doe + year_of_era doe / 4 - year_of_era doe / 100)

abbrev pub month_from_march : ℕ → ℕ
month_from_march doy = (5 * doy + 2) / 153

date_at : ℕ → ℕ → ℕ → Date
date_at y doy mp =
    let d = doy - (153 * mp + 2) / 5 + 1 in
    let m = if ltb mp 10 then mp + 3 else mp - 9 in
    record { year = if leb m 2 then y + 1 else y; month = m; day = d }

-- `as i32`: the 32 bits that are kept. Below 2^31 they are the number, from there on they stand for
-- a negative one.
unfoldable pub as_i32 : ℕ → ℕ
as_i32 n = n % 2 ^ 32

abbrev pub with_i32_year : Date → Date
with_i32_year d = record { year = as_i32 d.year; month = d.month; day = d.day }

-- The days of a time of 64 bits are far from the bounds of the sum.
unfoldable pub days_to_ymd : ℕ → Date
unfolding date_at
days_to_ymd days =
    let z = days + 719_468 in
    let doe = day_of_era z in
    let y = year_of_era doe + z / 146_097 * 400 in
    with_i32_year (date_at y (day_of_year doe) (month_from_march (day_of_year doe)))

zeros : ℕ → Text
zeros zero = []
zeros (suc n) = b'0' ∷ zeros n

-- `{n:0width}`
unfoldable pub padded : ℕ → ℕ → Text
unfolding zeros
padded width n = zeros (width - length (print n)) ++ print n

-- `{n:0width}` of the bits of an `i32`; the sign takes a place.
unfoldable pub padded_i32 : ℕ → ℕ → Text
padded_i32 width n =
    if ltb n (2 ^ 31) then padded width n else b'-' ∷ padded (width - 1) (2 ^ 32 - n)

unfoldable pub format_rfc3339 : ℕ → ℕ → Text
format_rfc3339 unix_secs sub_ms =
    let rem_secs = unix_secs % 86_400 in
    let date = days_to_ymd (unix_secs / 86_400) in
    padded_i32 4 date.year
    ++ (codes "-"
        ++ (padded 2 date.month
            ++ (codes "-"
                ++ (padded 2 date.day
                    ++ (codes "T"
                        ++ (padded 2 (rem_secs / 3600)
                            ++ (codes ":"
                                ++ (padded 2 (rem_secs % 3600 / 60)
                                    ++ (codes ":"
                                        ++ (padded 2 (rem_secs % 60)
                                            ++ (codes "."
                                                ++ (padded 3 sub_ms ++ codes "Z"))))))))))))
