-- ===== src/Broker/Glob/Spec.antt =====
-- What a wildcard pattern means, as a relation, and its inversions.
use unicity_aos.Base.{
  ℕ, suc, ◌≡◌, ◌≢◌, refl, true, List, [], ◌∷◌, drop, arith, inl, inr, ◌==◌, Bool-cases,
}
use unicity_aos.Broker.Glob.{fits, all_stars}

-- `*` stands for any run, `?` for one character, any other character for itself.
pub data Matches : List ℕ → List ℕ → Type 0 where
  done : Matches [] []
  empty : {c : ℕ} {ps ts : List ℕ} → c ≡ b'*' → Matches ps ts → Matches (c ∷ ps) ts
  absorb : {c d : ℕ} {ps ts : List ℕ} → c ≡ b'*' → Matches (c ∷ ps) ts → Matches (c ∷ ps) (d ∷ ts)
  single : {c d : ℕ} {ps ts : List ℕ} → c ≡ b'?' → Matches ps ts → Matches (c ∷ ps) (d ∷ ts)
  literal :
      {c d : ℕ} {ps ts : List ℕ} → c ≢ b'*' → c ≡ d → Matches ps ts → Matches (c ∷ ps) (d ∷ ts)

-- A character that fits is consumed, also where both are stars.
pub Matches-fits :
    (c d : ℕ) {ps ts : List ℕ} → fits c d ≡ true → Matches ps ts → Matches (c ∷ ps) (d ∷ ts)
Matches-fits c d h m = elim (Bool-cases (c == b'?')) [
  | inl any ↦ single (ground arith) m
  | inr same ↦ elim (Bool-cases (c == b'*')) [
    | inl s ↦ absorb (ground arith) (empty (ground arith) m)
    | inr n ↦ literal (ground arith) (ground arith) m
  ]
]

pub Matches-nil : {ps : List ℕ} → Matches ps [] → all_stars ps ≡ true
unfolding all_stars
Matches-nil done = refl
Matches-nil (empty e m) = ground (arith, Matches-nil m)

pub all_stars-Matches : (ps : List ℕ) → all_stars ps ≡ true → Matches ps []
unfolding all_stars
all_stars-Matches [] h = done
all_stars-Matches (c ∷ ps) h = empty (ground arith) (all_stars-Matches ps (ground arith))

pub Matches-star :
    {c : ℕ} {ps ts : List ℕ} → Matches (c ∷ ps) ts → c ≡ b'*' → (j : ℕ) × Matches ps (drop j ts)
Matches-star (empty e m) s = (0, m)
Matches-star (absorb e m) s = let (j, k) = Matches-star m s in (suc j, k)
Matches-star (single e m) s = absurd (omega arith)
Matches-star (literal n e m) s = absurd (n s)

pub Matches-char :
    {c : ℕ} {ps ts : List ℕ}
    → Matches (c ∷ ps) ts
    → c ≢ b'*'
    → (d : ℕ) × (us : List ℕ) × (ts ≡ d ∷ us) × (fits c d ≡ true) × Matches ps us
Matches-char (empty e m) n = absurd (n e)
Matches-char (absorb e m) n = absurd (n e)
Matches-char (single {d} {ts} e m) n = (d, ts, refl, ground arith, m)
Matches-char (literal {d} {ts} k e m) n = (d, ts, refl, ground arith, m)

pub Matches-ne-nil : {d : ℕ} {ts : List ℕ} → Matches [] (d ∷ ts) → ⊥
Matches-ne-nil m = elim m [ ]
