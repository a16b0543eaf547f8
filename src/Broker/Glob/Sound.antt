-- ===== src/Broker/Glob/Sound.antt =====
-- About the loop of `glob_match` (crates/aos-mcp-broker/src/policy.rs): from an accept to a match.
use unicity_aos.Base.{
  ℕ, zero, suc, ◌≤◌, ◌≡◌, refl, subst, Bool, true, List, get_elem?, drop, Option, none, some, arith,
  inl, inr, Option-cases, drop_of_get, drop_past,
}
use unicity_aos.Broker.Glob.{Scan, fits, round, scan, start, enough, glob_match}
use unicity_aos.Broker.Glob.Turn.{Turn, matched, anchored, retried, failed, round-Turn, continue}
use unicity_aos.Broker.Glob.Spec.{Matches, empty, absorb, Matches-fits, all_stars-Matches}

module _ (pat txt : List ℕ) where
  -- A match of what is left gives a match of the whole, from the position and from the anchor.
  record Leads (s : Scan) : Type 0 where
    behind : s.resume ≤ s.t
    here : Matches (drop s.p pat) (drop s.t txt) → Matches pat txt
    back :
        (sp : ℕ)
        → s.star ≡ some sp
        → (get_elem? pat sp ≡ some b'*')
          × (Matches (drop sp pat) (drop s.resume txt) → Matches pat txt)

  abbrev LeadsOn : Option Scan → Type 0
  LeadsOn none = Unit
  LeadsOn (some s) = Leads s

  step_fits :
      (p t c d : ℕ)
      → get_elem? pat p ≡ some c
      → get_elem? txt t ≡ some d
      → fits c d ≡ true
      → Matches (drop (suc p) pat) (drop (suc t) txt)
      → Matches (drop p pat) (drop t txt)
  step_fits p t c d h e k m =
      rw (drop_of_get pat p c h, drop_of_get txt t d e) (Matches-fits c d k m)

  step_empty :
      (p t : ℕ)
      → get_elem? pat p ≡ some b'*'
      → Matches (drop (suc p) pat) (drop t txt)
      → Matches (drop p pat) (drop t txt)
  step_empty p t h m = rw (drop_of_get pat p _ h) (empty refl m)

  step_absorb :
      (p t : ℕ)
      → get_elem? pat p ≡ some b'*'
      → Matches (drop p pat) (drop (suc t) txt)
      → Matches (drop p pat) (drop t txt)
  step_absorb p t h m = elim (Option-cases (get_elem? txt t)) [
    | inl e ↦
        rw (drop_past txt t t e (omega arith)) (rw (drop_past txt t (suc t) e (omega arith)) at m)
    | inr (d, e) ↦
        rw (drop_of_get txt t d e, drop_of_get pat p _ h)
          (absorb refl (rw (drop_of_get pat p _ h) at m))
  ]

  Turn-Leads :
      (d : ℕ) (s : Scan) {r : Option Scan}
      → Leads s
      → get_elem? txt s.t ≡ some d
      → Turn (get_elem? pat s.p) d s r
      → LeadsOn r
  Turn-Leads d s v e (matched c h k) = record {
    behind = omega (arith, v.behind);
    here = λ m. v.here (step_fits s.p s.t c d h e k m);
    back = v.back;
  }
  Turn-Leads d s v e (anchored c h k) = record {
    behind = omega arith;
    here = λ m. v.here (step_empty s.p s.t (ground arith) m);
    back = λ sp q.
        let same : s.p ≡ sp = cc in
        subst
          (λ x.
            (get_elem? pat x ≡ some b'*') × (Matches (drop x pat) (drop s.t txt) → Matches pat txt))
          same (ground arith, v.here);
  }
  Turn-Leads d s v e (retried sp h k) = record {
    behind = omega arith;
    here = λ m.
        (v.back sp h).1 (
          step_absorb sp s.resume (v.back sp h).0 (step_empty sp (suc s.resume) (v.back sp h).0 m));
    back =
        λ sq q. ((v.back sq q).0, λ m. (v.back sq q).1 (step_absorb sq s.resume (v.back sq q).0 m));
  }
  Turn-Leads d s v e (failed h k) = tt

  continue_sound :
      (fuel : ℕ) (r : Option Scan)
      → ((s : Scan) → Leads s → scan fuel pat txt s ≡ some true → Matches pat txt)
      → LeadsOn r
      → continue fuel pat txt r ≡ some true
      → Matches pat txt
  continue_sound fuel none ih v h = absurd (cc)
  continue_sound fuel (some s) ih v h = ih s v h

  scan_sound : (fuel : ℕ) (s : Scan) → Leads s → scan fuel pat txt s ≡ some true → Matches pat txt
  unfolding scan
  scan_sound zero s v h = absurd (cc)
  scan_sound (suc fuel) s v h = elim (Option-cases (get_elem? txt s.t)) [
    | inl e ↦ v.here (
        rw (drop_past txt s.t s.t e (omega arith))
          (all_stars-Matches (drop s.p pat) (ground arith)))
    | inr (d, e) ↦
        continue_sound fuel (round (get_elem? pat s.p) d s) (scan_sound fuel)
          (Turn-Leads d s v e (round-Turn (get_elem? pat s.p) d s)) (rw (e, scan) at h)
  ]

-- Whatever the text, a pattern that the matcher accepts does match it.
pub glob_match_sound : (pat txt : List ℕ) → glob_match pat txt ≡ true → Matches pat txt
unfolding glob_match
glob_match_sound pat txt h =
    scan_sound pat txt (enough pat txt) start
      (record { behind = omega arith; here = λ m. m; back = λ sp q. absurd (cc) }) (ground arith)

pub glob_match_of_scan :
    (pat txt : List ℕ) (b : Bool)
    → scan (enough pat txt) pat txt start ≡ some b
    → glob_match pat txt ≡ b
unfolding glob_match
glob_match_of_scan pat txt b h = rw (h, glob_match)
