-- ===== src/Broker/Glob/Tests.antt =====
-- Tests and instances for the wildcard matcher.
use unicity_aos.Base.{◌≡◌, refl, ◌↔◌, Bool, true, false, [], some, arith, codes}
use unicity_aos.Broker.Glob.{glob_match, scan, enough, start}
use unicity_aos.Broker.Glob.Spec.{Matches}
use unicity_aos.Broker.Glob.Total.{scan-enough}
use unicity_aos.Broker.Glob.Complete.{glob_match_iff}
use unicity_aos.Broker.Glob.Stars.{glob_match_star}

-- The unit test `glob_basics` of policy.rs.
glob_tests :
    (glob_match (codes "fs_*") (codes "fs_read") ≡ true)
    × (glob_match (codes "*") (codes "anything") ≡ true)
    × (glob_match (codes "http_?et") (codes "http_get") ≡ true)
    × (glob_match (codes "fs_*") (codes "http_get") ≡ false)
    × (glob_match (codes "a*b*c") (codes "aXbYc") ≡ true)
    × (glob_match (codes "a*b*c") (codes "aXbY") ≡ false)
    × (glob_match (codes "") (codes "") ≡ true)
    × (glob_match (codes "") (codes "x") ≡ false)
    × (glob_match (codes "*rm*") (codes "*x rm") ≡ false)
unfolding glob_match
glob_tests = (refl, refl, refl, refl, refl, refl, refl, refl, refl)

glob_match_iff_example :
    (glob_match (codes "a*") (codes "ab") ≡ true) ↔ Matches (codes "a*") (codes "ab")
glob_match_iff_example = glob_match_iff (codes "a*") (codes "ab") (omega arith)

scan-enough_example :
    (b : Bool) × (scan (enough (codes "*a") (codes "bba")) (codes "*a") (codes "bba") start
      ≡ some b)
scan-enough_example = scan-enough (codes "*a") (codes "bba")

glob_match_star_example :
    (glob_match (codes "*a") (codes "*ba") ≡ false)
    × (Matches (codes "a") (codes "a") → Matches (codes "*a") (codes "*ba"))
glob_match_star_example =
    glob_match_star b'a' b'b' [] (codes "a") (omega arith) (omega arith) (omega arith)
