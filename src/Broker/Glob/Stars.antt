-- ===== src/Broker/Glob/Stars.antt =====
-- A literal star in the text. The loop tests `pat[p] == txt[t]` before `pat[p] == '*'`, so a star of
-- the pattern that meets a star of the text is used up as a literal, and no anchor is left.
use unicity_aos.Base.{ℕ, suc, ◌-◌, ◌≤◌, ◌≡◌, ◌≢◌, refl, subst, false, List, ◌∷◌, some, arith}
use unicity_aos.Broker.Glob.{scan, round, retry, start, enough, glob_match}
use unicity_aos.Broker.Glob.Sound.{glob_match_of_scan}
use unicity_aos.Broker.Glob.Spec.{Matches, empty, absorb}

scan_star :
    (fuel c d : ℕ) (ps ts : List ℕ)
    → c ≢ b'?'
    → c ≢ b'*'
    → c ≢ d
    → scan (suc (suc fuel)) (b'*' ∷ c ∷ ps) (b'*' ∷ d ∷ ts) start ≡ some false
unfolding scan round retry
scan_star fuel c d ps ts h k n = ground arith

two_rounds : (n : ℕ) → 2 ≤ n → suc (suc (n - 2)) ≡ n
two_rounds n h = omega arith

enough-two : (c d : ℕ) (ps ts : List ℕ) → 2 ≤ enough (b'*' ∷ c ∷ ps) (b'*' ∷ d ∷ ts)
enough-two c d ps ts = omega arith

-- `glob_match` refuses a text that its pattern matches: a pattern that starts with a star and a
-- character `c` refuses every text that starts with a star and another character, also where the
-- rest of the text does match from `c` on.
pub glob_match_star :
    (c d : ℕ) (ps ts : List ℕ)
    → c ≢ b'?'
    → c ≢ b'*'
    → c ≢ d
    → (glob_match (b'*' ∷ c ∷ ps) (b'*' ∷ d ∷ ts) ≡ false)
      × (Matches (c ∷ ps) ts → Matches (b'*' ∷ c ∷ ps) (b'*' ∷ d ∷ ts))
glob_match_star c d ps ts h k n = (
  glob_match_of_scan _ _ false (
      subst (λ f. scan f (b'*' ∷ c ∷ ps) (b'*' ∷ d ∷ ts) start ≡ some false)
        (two_rounds _ (enough-two c d ps ts)) (scan_star _ c d ps ts h k n)),
  λ m. absorb refl (absorb refl (empty refl m)),
)
