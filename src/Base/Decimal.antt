-- ===== src/Base/Decimal.antt =====
-- Decimal numbers as text: `to_string` and `parse::<u64>`.
use Prim.Native.Nat.{ℕ, zero, suc, ◌+◌, ◌-◌, ◌*◌, ◌/◌, ◌%◌, ◌≤◌, ◌<◌}
use mathlib.Core.Path.{◌≡◌, refl, ap, ◌∙◌}
use mathlib.Core.Logic.{◌≢◌, inl, inr}
use mathlib.Core.Bool.{◌&&◌}
use mathlib.Core.List.{[], ◌∷◌, ◌++◌}
use mathlib.Core.Option.{Option, none, some}
use native.Mathlib.Omega.{arith}
use unicity_aos.Base.Tests.{◌==◌, ltb, leb, if◌then◌else◌, Bool-cases, ltb→lt}
use unicity_aos.Base.Text.{Text, trim, trim_start, trim_end, is_whitespace}

-- The digits of `n`, least significant last, on fuel.
print_with : ℕ → ℕ → Text
print_with zero n = []
print_with (suc fuel) n =
    let rest = print_with fuel (n / 10) in
    if ltb n 10 then (n + b'0') ∷ [] else rest ++ ((n % 10 + b'0') ∷ [])

unfoldable pub print : ℕ → Text
unfolding print_with
print n = print_with (suc n) n

abbrev pub u64_max : ℕ
u64_max = 0xffff_ffff_ffff_ffff

-- The digits read so far, and the rest; `none` at a character that is no digit, or on overflow.
parse_digits : ℕ → Text → Option ℕ
parse_digits acc [] = some acc
parse_digits acc (c ∷ s) =
    let next = acc * 10 + (c - b'0') in
    let rest = parse_digits next s in
    if leb b'0' c && leb c b'9' && leb next u64_max then rest else none

-- One leading `+` is taken; no digit at all is an error.
strip_plus : Text → Text
strip_plus [] = []
strip_plus (c ∷ s) = if c == b'+' then s else c ∷ s

parse_some : Text → Option ℕ
parse_some [] = none
parse_some (c ∷ s) = parse_digits 0 (c ∷ s)

unfoldable pub parse_u64 : Text → Option ℕ
unfolding parse_some parse_digits strip_plus
parse_u64 s = parse_some (strip_plus s)

parse_digits-append :
    (acc m : ℕ) (s : Text) (c : ℕ)
    → parse_digits acc s ≡ some m
    → b'0' ≤ c
    → c ≤ b'9'
    → m * 10 + (c - b'0') ≤ u64_max
    → parse_digits acc (s ++ (c ∷ [])) ≡ some (m * 10 + (c - b'0'))
unfolding parse_digits
parse_digits-append acc m [] c h a b l = ground arith
parse_digits-append acc m (d ∷ s) c h a b l =
    ground (arith, parse_digits-append (acc * 10 + (d - b'0')) m s c)

parse_one : (n : ℕ) → n < 10 → parse_digits 0 ((n + b'0') ∷ []) ≡ some n
unfolding parse_digits
parse_one n h = ground arith

parse-print_with :
    (fuel n : ℕ) → n < fuel → n ≤ u64_max → parse_digits 0 (print_with fuel n) ≡ some n
unfolding print_with
parse-print_with zero n h l = elim h [ ]
parse-print_with (suc fuel) n h l = elim (Bool-cases (ltb n 10)) [
  | inl d ↦ rw d (parse_one n (ltb→lt n 10 d))
  | inr d ↦
      let many : 10 ≤ n = ground arith in
      let last : (n / 10) * 10 + ((n % 10 + b'0') - b'0') ≡ n = omega arith in
      rw d (
        parse_digits-append 0 (n / 10) (print_with fuel (n / 10)) (n % 10 + b'0')
          (parse-print_with fuel (n / 10) (omega arith) (omega arith)) (omega arith) (omega arith)
          (omega arith)
        ∙ ap some last)
]

-- A text of digits starts with no sign and has no blank at its ends.
digits_plain :
    (acc m : ℕ) (s : Text)
    → parse_digits acc s ≡ some m
    → (strip_plus s ≡ s) × (trim_start s ≡ s) × (trim_end s ≡ s)
unfolding parse_digits strip_plus trim_start trim_end is_whitespace
digits_plain acc m [] h = (refl, refl, refl)
digits_plain acc m (c ∷ s) h = ground (arith, digits_plain (acc * 10 + (c - b'0')) m s)

append_one-ne-nil : (s : Text) (c : ℕ) → s ++ (c ∷ []) ≢ []
append_one-ne-nil [] c = ground arith
append_one-ne-nil (d ∷ s) c = ground arith

print-ne-nil : (n : ℕ) → print n ≢ []
unfolding print
print-ne-nil n = ground (arith, append_one-ne-nil (print_with n (n / 10)) (n % 10 + b'0'))

pub trim-print : (n : ℕ) → n ≤ u64_max → trim (print n) ≡ print n
unfolding print trim
trim-print n l =
    let (_, b, c) =
      digits_plain 0 n (print_with (suc n) n) (parse-print_with (suc n) n (omega arith) l) in
    ap trim_end b ∙ c

parse_some_of_digits :
    (s : Text) (n : ℕ) → s ≢ [] → parse_digits 0 s ≡ some n → parse_some s ≡ some n
unfolding parse_some
parse_some_of_digits [] n h e = absurd (h refl)
parse_some_of_digits (c ∷ s) n h e = e

-- A number below 2^64 is read back from its decimal text.
pub parse_u64-print : (n : ℕ) → n ≤ u64_max → parse_u64 (print n) ≡ some n
unfolding print parse_u64
parse_u64-print n l =
    let e = parse-print_with (suc n) n (omega arith) l in
    let (a, _, _) = digits_plain 0 n (print_with (suc n) n) e in
    ap parse_some a ∙ parse_some_of_digits (print_with (suc n) n) n (print-ne-nil n) e
