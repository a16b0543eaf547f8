-- ===== src/Broker/Glob/Turn.antt =====
-- What one round of the matching loop does, as a relation that the proofs about the loop match on.
use unicity_aos.Base.{
  ℕ, suc, ◌≡◌, ◌≢◌, refl, subst, Bool, true, false, List, Option, none, some, arith, inl, inr, ◌==◌,
  Bool-cases, Option-cases,
}
use unicity_aos.Broker.Glob.{Scan, fits, retry, round, scan}

-- No pattern character, or one that neither fits nor is a star.
abbrev pub Mismatch : Option ℕ → ℕ → Type 0
Mismatch none d = Unit
Mismatch (some c) d = (fits c d ≡ false) × (c ≢ b'*')

pub data Turn (o : Option ℕ) (d : ℕ) (s : Scan) : Option Scan → Type 0 where
  matched :
      (c : ℕ)
      → o ≡ some c
      → fits c d ≡ true
      → Turn o d s (some (record s { p = suc s.p; t = suc s.t }))
  anchored :
      (c : ℕ)
      → o ≡ some c
      → c ≡ b'*'
      → Turn o d s (some (record s { p = suc s.p; star = some s.p; resume = s.t }))
  retried :
      (sp : ℕ)
      → s.star ≡ some sp
      → Mismatch o d
      → Turn o d s
          (some (record { p = suc sp; t = suc s.resume; star = s.star; resume = suc s.resume }))
  failed : s.star ≡ none → Mismatch o d → Turn o d s none

retry-Turn : (o : Option ℕ) (d : ℕ) (s : Scan) → Mismatch o d → Turn o d s (retry s)
unfolding retry
retry-Turn o d s m = elim (Option-cases s.star) [
  | inl e ↦ subst (Turn o d s) (ground (arith, e)) (failed e m)
  | inr (sp, e) ↦ subst (Turn o d s) (ground (arith, e)) (retried sp e m)
]

pub round-Turn : (o : Option ℕ) (d : ℕ) (s : Scan) → Turn o d s (round o d s)
unfolding round
round-Turn none d s = retry-Turn none d s tt
round-Turn (some c) d s = elim (Bool-cases (fits c d)) [
  | inl h ↦ rw h (matched c refl h)
  | inr h ↦ elim (Bool-cases (c == b'*')) [
    | inl k ↦ rw (h, k) (anchored c refl (ground arith))
    | inr k ↦ rw (h, k) (retry-Turn (some c) d s (h, ground arith))
  ]
]

-- What follows a round.
abbrev pub continue : ℕ → List ℕ → List ℕ → Option Scan → Option Bool
continue fuel pat txt r = elim r [ none ↦ some false | some s' ↦ scan fuel pat txt s' ]
