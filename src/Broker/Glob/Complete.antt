-- ===== src/Broker/Glob/Complete.antt =====
-- About the loop of `glob_match` (crates/aos-mcp-broker/src/policy.rs): from a match to an accept.
use unicity_aos.Base.{
  ℕ, zero, suc, ◌+◌, ◌-◌, ◌≤◌, ◌≡◌, ◌≢◌, refl, subst, Bool, true, List, get_elem?, drop, Option,
  none, some, arith, inl, inr, Option-cases, All, All-get, ◌↔◌, ◌∙◌, ap, drop_of_get, drop_past,
  drop-drop, drop_tail,
}
use native.Mathlib.Decide.{dec_lt}
use unicity_aos.Broker.Glob.{Scan, round, scan, start, enough, glob_match, all_stars}
use unicity_aos.Broker.Glob.Total.{scan-enough}
use unicity_aos.Broker.Glob.Sound.{glob_match_sound, glob_match_of_scan}
use unicity_aos.Broker.Glob.Turn.{
  Turn, Mismatch, matched, anchored, retried, failed, round-Turn, continue,
}
use unicity_aos.Broker.Glob.Spec.{Matches, Matches-nil, Matches-star, Matches-char, Matches-ne-nil}

some_path : {x y : ℕ} → some x ≡ some y → x ≡ y
some_path e = cc

module _ (pat txt : List ℕ) where
  -- A match of the whole is a match of what is left, from the position or from a later anchor.
  -- `Chased o p t resume` says it for the anchor `o`.
  abbrev Chased : Option ℕ → ℕ → ℕ → ℕ → Type 0
  Chased none p t resume = Matches pat txt → Matches (drop p pat) (drop t txt)
  Chased (some sp) p t resume =
      (Matches pat txt → (k : ℕ) × (resume ≤ k) × Matches (drop (suc sp) pat) (drop k txt))
      × ((k : ℕ)
          → resume ≤ k
          → Matches (drop (suc sp) pat) (drop k txt)
          → Matches (drop p pat) (drop (k + (t - resume)) txt))

  record Holds (s : Scan) : Type 0 where
    behind : s.resume ≤ s.t
    chased : Chased s.star s.p s.t s.resume

  abbrev HoldsOn : Option Scan → Type 0
  HoldsOn none = ⊥
  HoldsOn (some s) = Holds s

  char_step :
      (p t c : ℕ)
      → get_elem? pat p ≡ some c
      → c ≢ b'*'
      → Matches (drop p pat) (drop t txt)
      → Matches (drop (suc p) pat) (drop (suc t) txt)
  char_step p t c h n m =
      let (d, us, e, _, k) = Matches-char (rw (drop_of_get pat p c h) at m) n in
      rw (drop_tail txt t d us e) k

  star_step :
      (p t : ℕ)
      → get_elem? pat p ≡ some b'*'
      → Matches (drop p pat) (drop t txt)
      → (k : ℕ) × (t ≤ k) × Matches (drop (suc p) pat) (drop k txt)
  star_step p t h m =
      let (j, k) = Matches-star (rw (drop_of_get pat p _ h) at m) refl in
      (t + j, omega arith, rw (drop-drop txt t j) at k)

  no_step :
      (p t d : ℕ)
      → get_elem? txt t ≡ some d
      → Mismatch (get_elem? pat p) d
      → Matches (drop p pat) (drop t txt)
      → ⊥
  no_step p t d e k m = elim (Option-cases (get_elem? pat p)) [
    | inl h ↦
        Matches-ne-nil (rw (drop_past pat p p h (omega arith)) at (rw (drop_of_get txt t d e) at m))
    | inr (c, h) ↦
        let (f, n) = rw (h, Mismatch) at k in
        let (d', us, q, fit, _) =
          Matches-char (rw (drop_of_get pat p c h) at (rw (drop_of_get txt t d e) at m)) n in
        cc
  ]

  -- From the anchor on, every match passes through the position.
  arrives :
      (o : Option ℕ) (p t resume : ℕ)
      → resume ≤ t
      → Chased o p t resume
      → Matches pat txt
      → (k : ℕ) × (t ≤ k) × Matches (drop p pat) (drop k txt)
  arrives none p t resume b v m = (t, omega arith, v m)
  arrives (some sp) p t resume b v m =
      let (k, l, n) = v.0 m in (k + (t - resume), omega arith, v.1 k l n)

  advance :
      (o : Option ℕ) (p t resume c : ℕ)
      → get_elem? pat p ≡ some c
      → c ≢ b'*'
      → resume ≤ t
      → Chased o p t resume
      → Chased o (suc p) (suc t) resume
  advance none p t resume c h n b v = λ m. char_step p t c h n (v m)
  advance (some sp) p t resume c h n b v = (
    v.0,
    λ k l m.
        let same : k + (suc t - resume) ≡ suc (k + (t - resume)) = omega arith in
        rw same (char_step p _ c h n (v.1 k l m)),
  )

  anchor_here :
      (p t : ℕ)
      → Chased (some p) (suc p) t t
      → Holds (record { p = suc p; t = t; star = some p; resume = t })
  anchor_here p t v = record { behind = omega arith; chased = v }

  stay :
      (sp k r : ℕ)
      → Matches (drop (suc sp) pat) (drop k txt)
      → Matches (drop (suc sp) pat) (drop (k + (r - r)) txt)
  stay sp k r m = let same : k + (r - r) ≡ k = omega arith in rw same m

  resumes :
      (o : Option ℕ) (sp p t resume d : ℕ)
      → o ≡ some sp
      → resume ≤ t
      → get_elem? txt t ≡ some d
      → Mismatch (get_elem? pat p) d
      → Chased o p t resume
      → Chased o (suc sp) (suc resume) (suc resume)
  resumes none sp p t resume d e b h k v = absurd (cc)
  resumes (some sq) sp p t resume d e b h k v = (
    later,
    λ i l m.
        subst (λ x. Matches (drop (suc x) pat) (drop (i + (suc resume - suc resume)) txt))
          (some_path e) (stay sq i (suc resume) m),
  )
    where
      later :
          Matches pat txt → (i : ℕ) × (suc resume ≤ i) × Matches (drop (suc sq) pat) (drop i txt)
      later m =
          let (i, l, n) = v.0 m in
          elim (dec_lt resume i) [
            | yes q ↦ (i, q, n)
            | no q ↦
                let same : i + (t - resume) ≡ t = omega arith in
                absurd (no_step p t d h k (rw same at (v.1 i l n)))
          ]

  unanchored :
      (o : Option ℕ) (p t resume : ℕ)
      → o ≡ none
      → Chased o p t resume
      → Matches pat txt
      → Matches (drop p pat) (drop t txt)
  unanchored none p t resume e v w = v w
  unanchored (some sp) p t resume e v w = absurd (cc)

  Turn-Holds :
      (d : ℕ) (s : Scan) {r : Option Scan}
      → d ≢ b'*'
      → Holds s
      → Matches pat txt
      → get_elem? txt s.t ≡ some d
      → Turn (get_elem? pat s.p) d s r
      → HoldsOn r
  Turn-Holds d s n v w e (matched c h k) = record {
    behind = omega (arith, v.behind);
    chased = advance s.star s.p s.t s.resume c h (ground arith) v.behind v.chased;
  }
  Turn-Holds d s n v w e (anchored c h k) = anchor_here s.p s.t (
    λ m.
        let (i, l, q) = arrives s.star s.p s.t s.resume v.behind v.chased m in
        let (j, g, z) = star_step s.p i (ground arith) q in (j, omega arith, z),
    λ i l m. stay s.p i s.t m,
  )
  Turn-Holds d s n v w e (retried sp h k) = record {
    behind = omega arith;
    chased = resumes s.star sp s.p s.t s.resume d h v.behind e k v.chased;
  }
  Turn-Holds d s n v w e (failed h k) =
      no_step s.p s.t d e k (unanchored s.star s.p s.t s.resume h v.chased w)

  continue_complete :
      (fuel : ℕ) (b : Bool) (r : Option Scan)
      → ((s : Scan) → Holds s → scan fuel pat txt s ≡ some b → b ≡ true)
      → HoldsOn r
      → continue fuel pat txt r ≡ some b
      → b ≡ true
  continue_complete fuel b none ih v h = absurd v
  continue_complete fuel b (some s) ih v h = ih s v h

  scan_complete :
      (fuel : ℕ) (b : Bool)
      → All (λ x. x ≢ b'*') txt
      → Matches pat txt
      → (s : Scan) → Holds s
      → scan fuel pat txt s ≡ some b
      → b ≡ true
  unfolding scan
  scan_complete zero b free w s v h = absurd (cc)
  scan_complete (suc fuel) b free w s v h = elim (Option-cases (get_elem? txt s.t)) [
    | inl e ↦
        let (k, l, m) = arrives s.star s.p s.t s.resume v.behind v.chased w in
        let q : all_stars (drop s.p pat) ≡ true = Matches-nil (rw (drop_past txt s.t k e l) at m) in
        cc (rw (e, scan) at h)
    | inr (d, e) ↦
        continue_complete fuel b (round (get_elem? pat s.p) d s) (scan_complete fuel b free w)
          (Turn-Holds d s (All-get _ txt s.t d free e) v w e (round-Turn (get_elem? pat s.p) d s))
          (rw (e, scan) at h)
  ]

-- Where no character of the text is a star, the matcher accepts exactly the texts that the
-- pattern matches.
pub glob_match_iff :
    (pat txt : List ℕ) → All (λ x. x ≢ b'*') txt → (glob_match pat txt ≡ true) ↔ Matches pat txt
glob_match_iff pat txt free = (glob_match_sound pat txt, accepts)
  where
    accepts : Matches pat txt → glob_match pat txt ≡ true
    accepts w =
        let (b, e) = scan-enough pat txt in
        let q : b ≡ true =
          scan_complete pat txt (enough pat txt) b free w start
            (record { behind = omega arith; chased = λ m. m }) e in
        glob_match_of_scan pat txt true (e ∙ ap some q)
