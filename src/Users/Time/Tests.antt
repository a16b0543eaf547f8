-- ===== src/Users/Time/Tests.antt =====
-- Tests and instances for time stamps, after the unit tests of time.rs.
use unicity_aos.Base.{◌≡◌, ◌<◌, ◌^◌, refl, codes, arith}
use unicity_aos.Base.Decimal.{print}
use unicity_aos.Users.Time.{days_to_ymd, format_rfc3339, as_i32, padded_i32, padded}
use unicity_aos.Users.Time.Calendar.{days_to_ymd_lem}
use unicity_aos.Users.Time.Gregorian.{IsDate, days_from_civil}

format_rfc3339_tests :
    (format_rfc3339 0 0 ≡ codes "1970-01-01T00:00:00.000Z")
    × (format_rfc3339 1_768_480_496 789 ≡ codes "2026-01-15T12:34:56.789Z")
    × (format_rfc3339 2_147_483_647 0 ≡ codes "2038-01-19T03:14:07.000Z")
unfolding format_rfc3339 days_to_ymd as_i32 padded_i32 padded print
format_rfc3339_tests = (refl, refl, refl)

days_to_ymd_lem_example :
    IsDate (days_to_ymd 20_468)
    × (days_from_civil (days_to_ymd 20_468) ≡ 20_468)
    × ((days_to_ymd 20_468).year < 2 ^ 31)
days_to_ymd_lem_example = days_to_ymd_lem 20_468 (omega arith)
