-- ===== src/Broker/Glob/Total.antt =====
-- About the fuel of the loop of `glob_match` (crates/aos-mcp-broker/src/policy.rs).
use unicity_aos.Base.{
  ℕ, zero, suc, ◌+◌, ◌-◌, ◌*◌, ◌≤◌, ◌<◌, ◌≡◌, refl, List, length, get_elem?, Option, none, some,
  arith, get-lt-length, inl, inr, Option-cases, Bool, false, drop,
}
use native.Mathlib.Nat.{sub-zero}
use unicity_aos.Broker.Glob.{Scan, round, scan, start, enough, all_stars}
use unicity_aos.Broker.Glob.Turn.{Turn, matched, anchored, retried, failed, round-Turn, continue}

-- The pattern position stays in the pattern, the anchor before the text position.
record InRange (pat : List ℕ) (s : Scan) : Type 0 where
  anchor : s.resume ≤ s.t
  inside : s.p ≤ length pat
  starred : (sp : ℕ) → s.star ≡ some sp → sp < length pat

abbrev rounds_left : List ℕ → List ℕ → Scan → ℕ
rounds_left pat txt s = (length txt - s.resume) * suc (length pat) + (length pat - s.p)

-- A round stays in range and lowers the measure, or stops.
abbrev Progress : List ℕ → List ℕ → Scan → Option Scan → Type 0
Progress pat txt s none = Unit
Progress pat txt s (some s') = InRange pat s' × (rounds_left pat txt s' < rounds_left pat txt s)

stays : (a b x y k : ℕ) → a ≤ b → x < y → a * k + x < b * k + y
stays a b x y k h l = grind arith

falls : (a b x y r : ℕ) → a < b → x ≤ r → a * suc r + x < b * suc r + y
falls a b x y r h l = grind arith

Turn-Progress :
    (pat txt : List ℕ) (d : ℕ) (s : Scan) {r : Option Scan}
    → InRange pat s
    → get_elem? txt s.t ≡ some d
    → Turn (get_elem? pat s.p) d s r
    → Progress pat txt s r
Turn-Progress pat txt d s v e (matched c h k) =
    let l = get-lt-length pat s.p c h in
    (
      record { anchor = omega (arith, v.anchor); inside = l; starred = v.starred },
      stays _ _ _ _ _ (omega arith) (omega (arith, l)),
    )
Turn-Progress pat txt d s v e (anchored c h k) =
    let l = get-lt-length pat s.p c h in
    (
      record {
        anchor = omega arith;
        inside = l;
        starred = λ sp q. let w : s.p ≡ sp = cc in omega (arith, l, w);
      },
      stays _ _ _ _ _ (omega (arith, v.anchor)) (omega (arith, l)),
    )
Turn-Progress pat txt d s v e (retried sp h k) = (
  record { anchor = omega arith; inside = v.starred sp h; starred = v.starred },
  falls _ _ _ _ _ (omega (arith, v.anchor, get-lt-length txt s.t d e)) (omega arith),
)
Turn-Progress pat txt d s v e (failed h k) = tt

continue_total :
    (fuel : ℕ) (pat txt : List ℕ) (s : Scan) (r : Option Scan)
    → ((s' : Scan)
        → InRange pat s'
        → rounds_left pat txt s' < fuel
        → (b : Bool) × (scan fuel pat txt s' ≡ some b))
    → rounds_left pat txt s < suc fuel
    → Progress pat txt s r
    → (b : Bool) × (continue fuel pat txt r ≡ some b)
continue_total fuel pat txt s none ih h q = (false, refl)
continue_total fuel pat txt s (some s') ih h q = ih s' q.0 (omega (arith, q.1))

scan_total :
    (fuel : ℕ) (pat txt : List ℕ) (s : Scan)
    → InRange pat s
    → rounds_left pat txt s < fuel
    → (b : Bool) × (scan fuel pat txt s ≡ some b)
unfolding scan
scan_total zero pat txt s v h = absurd (omega arith)
scan_total (suc fuel) pat txt s v h = elim (Option-cases (get_elem? txt s.t)) [
  | inl e ↦ (all_stars (drop s.p pat), rw (e, scan))
  | inr (d, e) ↦
      rw (e, scan)
        (continue_total fuel pat txt s (round (get_elem? pat s.p) d s) (scan_total fuel pat txt) h
          (Turn-Progress pat txt d s v e (round-Turn (get_elem? pat s.p) d s)))
]

start-bound : (pat txt : List ℕ) → rounds_left pat txt start < enough pat txt
start-bound pat txt = simp sub-zero (omega arith)

-- The matcher always returns: its loop ends within the fuel that it is given.
pub scan-enough : (pat txt : List ℕ) → (b : Bool) × (scan (enough pat txt) pat txt start ≡ some b)
scan-enough pat txt =
    scan_total (enough pat txt) pat txt start
      (record { anchor = omega arith; inside = omega arith; starred = λ sp q. absurd (cc) })
      (start-bound pat txt)
