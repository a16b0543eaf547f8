-- ===== src/Broker/Consent/Keys.antt =====
-- About the four families of keys of the consent records (crates/aos-mcp-broker/src/execute.rs and
-- grant_decision.rs).
use unicity_aos.Base.{ℕ, ◌≡◌, ◌≢◌, refl, [], ◌∷◌, ◌++◌, get_elem?, some, arith}
use unicity_aos.Base.Text.{Text, append_cancel_left}
use unicity_aos.Broker.Consent.{
  suffix_key, trust_prefix, pending_prefix, grant_pending_prefix, grant_decision_prefix,
}

suffix_key-eq-some : (p s k : Text) → suffix_key p s ≡ some k → (k ≡ p ++ s) × (s ≢ [])
unfolding suffix_key
suffix_key-eq-some p [] k e = absurd (cc)
suffix_key-eq-some p (c ∷ s) k e = ground arith

pub suffix_key-some : (p s : Text) → s ≢ [] → (k : Text) × (suffix_key p s ≡ some k)
unfolding suffix_key
suffix_key-some p [] n = absurd (n refl)
suffix_key-some p (c ∷ s) n = (p ++ (c ∷ s), refl)

pub suffix_key_inj : (p s t k : Text) → suffix_key p s ≡ some k → suffix_key p t ≡ some k → s ≡ t
suffix_key_inj p s t k e f =
    append_cancel_left p s t (cc ((suffix_key-eq-some p s k e).0, (suffix_key-eq-some p t k f).0))

-- Two prefixes that differ at a position make no common key.
apart :
    (i c d : ℕ) (p q s t k : Text)
    → get_elem? (p ++ s) i ≡ some c
    → get_elem? (q ++ t) i ≡ some d
    → c ≢ d
    → suffix_key p s ≡ some k
    → suffix_key q t ≢ some k
apart i c d p q s t k a b n e f =
    let x : get_elem? k i ≡ some c = rw (suffix_key-eq-some p s k e).0 a in
    let y : get_elem? k i ≡ some d = rw (suffix_key-eq-some q t k f).0 b in n (cc)

pub trust-ne-pending :
    (s t k : Text) → suffix_key trust_prefix s ≡ some k → suffix_key pending_prefix t ≢ some k
trust-ne-pending s t k =
    apart 12 b't' b'p' trust_prefix pending_prefix s t k refl refl (omega arith)

pub trust-ne-grant_pending :
    (s t k : Text) → suffix_key trust_prefix s ≡ some k → suffix_key grant_pending_prefix t ≢ some k
trust-ne-grant_pending s t k =
    apart 4 b'i' b'g' trust_prefix grant_pending_prefix s t k refl refl (omega arith)

pub trust-ne-grant_decision :
    (s t k : Text)
    → suffix_key trust_prefix s ≡ some k
    → suffix_key grant_decision_prefix t ≢ some k
trust-ne-grant_decision s t k =
    apart 4 b'i' b'g' trust_prefix grant_decision_prefix s t k refl refl (omega arith)

pub pending-ne-grant_pending :
    (s t k : Text)
    → suffix_key pending_prefix s ≡ some k
    → suffix_key grant_pending_prefix t ≢ some k
pending-ne-grant_pending s t k =
    apart 4 b'i' b'g' pending_prefix grant_pending_prefix s t k refl refl (omega arith)

pub pending-ne-grant_decision :
    (s t k : Text)
    → suffix_key pending_prefix s ≡ some k
    → suffix_key grant_decision_prefix t ≢ some k
pending-ne-grant_decision s t k =
    apart 4 b'i' b'g' pending_prefix grant_decision_prefix s t k refl refl (omega arith)

pub grant_pending-ne-grant_decision :
    (s t k : Text)
    → suffix_key grant_pending_prefix s ≡ some k
    → suffix_key grant_decision_prefix t ≢ some k
grant_pending-ne-grant_decision s t k =
    apart 10 b'p' b'd' grant_pending_prefix grant_decision_prefix s t k refl refl (omega arith)
