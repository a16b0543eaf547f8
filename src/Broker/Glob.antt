-- ===== src/Broker/Glob.antt =====
-- `glob_match` of crates/aos-mcp-broker/src/policy.rs: the two-pointer wildcard matcher of the
-- policy rules. Characters are code points.
pub mod Spec
pub mod Turn
pub mod Total
pub mod Sound
pub mod Complete
pub mod Stars
mod Tests
use unicity_aos.Base.{
  ℕ, zero, suc, ◌+◌, ◌*◌, ◌==◌, Bool, true, false, ◌&&◌, ◌||◌, List, [], ◌∷◌, length, get_elem?,
  drop, Option, none, some, if◌then◌else◌,
}

-- The variables of the loop: `p`, `t`, and the anchors `star` and `resume`.
-- A round of the loop keeps these.
pub record Scan : Type 0 where
  pub p : ℕ
  pub t : ℕ
  pub star : Option ℕ
  pub resume : ℕ

-- `pat[p] == '?' || pat[p] == txt[t]`
abbrev pub fits : ℕ → ℕ → Bool
fits c d = c == b'?' || c == d

-- `else if let Some(sp) = star { … } else { return false; }`; `none` is the return.
pub retry : Scan → Option Scan
retry s = elim s.star [
  | none ↦ none
  | some sp ↦ some (record { p = suc sp; t = suc s.resume; star = s.star; resume = suc s.resume })
]

-- One round of the main loop at the text character `d`; the pattern character is `none` where
-- `p < pat.len()` fails.
pub round : Option ℕ → ℕ → Scan → Option Scan
unfolding retry
round none d s = retry s
round (some c) d s =
    if fits c d
    then some (record s { p = suc s.p; t = suc s.t })
    else if c == b'*'
    then some (record s { p = suc s.p; star = some s.p; resume = s.t })
    else retry s

-- The trailing loop and `p == pat.len()`, on the pattern from `p` on.
pub all_stars : List ℕ → Bool
all_stars [] = true
all_stars (c ∷ cs) = c == b'*' && all_stars cs

-- The loop, on fuel; `none` means that the fuel ran out.
pub scan : ℕ → List ℕ → List ℕ → Scan → Option Bool
scan zero pat txt s = none
scan (suc fuel) pat txt s = elim (get_elem? txt s.t) [
  | none ↦ some (all_stars (drop s.p pat))
  | some d ↦ elim (round (get_elem? pat s.p) d s) [
    | none ↦ some false
    | some s' ↦ scan fuel pat txt s'
  ]
]

abbrev pub start : Scan
start = record { p = 0; t = 0; star = none; resume = 0 }

-- Enough for every run: each position to resume from is tried once, with one pass over the pattern.
abbrev pub enough : List ℕ → List ℕ → ℕ
enough pat txt = suc (length txt * suc (length pat) + length pat)

unfoldable pub glob_match : List ℕ → List ℕ → Bool
unfolding scan round all_stars
glob_match pat txt = elim (scan (enough pat txt) pat txt start) [ none ↦ false | some b ↦ b ]
