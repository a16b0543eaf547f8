-- ===== src/Broker/Consent/Frame.antt =====
-- About the operations on the consent records (crates/aos-mcp-broker/src/execute.rs and
-- grant_decision.rs): the keys that they write, and what they report.
use unicity_aos.Base.{
  ℕ, ◌≡◌, ◌≢◌, refl, true, false, Option, none, some, arith, Option-cases, inl, inr,
}
use unicity_aos.Base.Text.{Text}
use unicity_aos.Broker.Kv.{
  Kv, Faults, get_bytes_opt, delete, set_bytes_ne, delete_ne, delete_absent, put_self, set_bytes,
}
use unicity_aos.Broker.Consent.{
  mark_value, set_at, take_at, pending_at, has_at, is_found, ingress_trust_key, ingress_pending_key,
  grant_pending_key, grant_decision_key, mark_ingress_pending, take_ingress_pending,
  is_ingress_trusted, mark_grant_pending, grant_pending, take_grant_pending, GrantDecision,
  record_grant_decision, recorded_grant_decision, decision_at,
}

-- The store holds a value at the key, if there is one.
abbrev pub Holds : Option Text → Kv → Type 0
Holds none kv = ⊥
Holds (some k) kv = kv k ≢ none

pub Holds-key : (o : Option Text) {kv : Kv} → Holds o kv → (k : Text) × (o ≡ some k) × (kv k ≢ none)
Holds-key none h = absurd h
Holds-key (some k) h = (k, refl, h)

pub Holds-of_key : (o : Option Text) (k : Text) (kv : Kv) → o ≡ some k → kv k ≢ none → Holds o kv
Holds-of_key none k kv e h = absurd (cc)
Holds-of_key (some j) k kv e h = let same : j ≡ k = cc in rw same h

abbrev pub IsTrusted : Text → Kv → Type 0
IsTrusted source_id kv = Holds (ingress_trust_key source_id) kv

abbrev pub IsPrompted : Text → Kv → Type 0
IsPrompted source_id kv = Holds (ingress_pending_key source_id) kv

module _ (f : Faults) (j : Text) (kv : Kv) where
  set_at_ne : (o : Option Text) (v : Text) → o ≢ some j → set_at f o v kv j ≡ kv j
  set_at_ne none v n = refl
  set_at_ne (some k) v n = set_bytes_ne f k v j kv (λ e. n (cc e))

  take_at_ne : (o : Option Text) → o ≢ some j → (take_at f o kv).1 j ≡ kv j
  unfolding take_at
  take_at_ne none n = refl
  take_at_ne (some k) n = let d : k ≢ j = λ e. n (cc e) in ground (arith, delete_ne f k j kv d)

  pending_at_ne : (now : ℕ) (o : Option Text) → o ≢ some j → (pending_at f now o kv).1 j ≡ kv j
  unfolding pending_at
  pending_at_ne now none n = refl
  pending_at_ne now (some k) n =
      let d : k ≢ j = λ e. n (cc e) in ground (arith, delete_ne f k j kv d)

  pub mark_ingress_pending_ne :
      (s : Text) → ingress_pending_key s ≢ some j → mark_ingress_pending f s kv j ≡ kv j
  unfolding mark_ingress_pending
  mark_ingress_pending_ne s n = set_at_ne (ingress_pending_key s) _ n

  pub take_ingress_pending_ne :
      (s : Text) → ingress_pending_key s ≢ some j → (take_ingress_pending f s kv).1 j ≡ kv j
  unfolding take_ingress_pending
  take_ingress_pending_ne s n = take_at_ne (ingress_pending_key s) n

  pub mark_grant_pending_ne :
      (now : ℕ) (c : Text) → grant_pending_key c ≢ some j → mark_grant_pending f now c kv j ≡ kv j
  unfolding mark_grant_pending
  mark_grant_pending_ne now c n = set_at_ne (grant_pending_key c) _ n

  pub grant_pending_ne :
      (now : ℕ) (c : Text) → grant_pending_key c ≢ some j → (grant_pending f now c kv).1 j ≡ kv j
  unfolding grant_pending
  grant_pending_ne now c n = pending_at_ne now (grant_pending_key c) n

  pub take_grant_pending_ne :
      (c : Text) → grant_pending_key c ≢ some j → (take_grant_pending f c kv).1 j ≡ kv j
  unfolding take_grant_pending
  take_grant_pending_ne c n = take_at_ne (grant_pending_key c) n

  pub record_grant_decision_ne :
      (c : Text) (d : GrantDecision)
      → grant_decision_key c ≢ some j
      → record_grant_decision f c d kv j ≡ kv j
  unfolding record_grant_decision
  record_grant_decision_ne c d n = set_at_ne (grant_decision_key c) _ n

take_at-true : (f : Faults) (o : Option Text) (kv : Kv) → (take_at f o kv).0 ≡ true → Holds o kv
unfolding take_at get_bytes_opt
take_at-true f none kv h = absurd (cc)
take_at-true f (some k) kv h = λ e. ground (arith, e)

-- A prompt is reported as outstanding only where its marker is there.
pub take_ingress_pending-true :
    (f : Faults) (s : Text) (kv : Kv) → (take_ingress_pending f s kv).0 ≡ true → IsPrompted s kv
unfolding take_ingress_pending
take_ingress_pending-true f s kv h = take_at-true f (ingress_pending_key s) kv h

take_at_gone :
    (f : Faults) (o : Option Text) (k : Text) (kv : Kv)
    → o ≡ some k
    → f.delete_fails k ≡ false
    → f.get_fails k ≡ false
    → (take_at f o kv).1 k ≡ none
unfolding take_at get_bytes_opt delete
take_at_gone f none k kv e d g = absurd (cc)
take_at_gone f (some i) k kv e d g =
    let same : i ≡ k = cc in
    rw same (elim (Option-cases (kv k)) [
      | inl h ↦ ground (arith, h)
      | inr (v, h) ↦ ground (arith, h, put_self k none kv)
    ])

-- Where the store answers, taking a prompt's marker leaves none.
pub take_ingress_pending_gone :
    (f : Faults) (s k : Text) (kv : Kv)
    → ingress_pending_key s ≡ some k
    → f.delete_fails k ≡ false
    → f.get_fails k ≡ false
    → (take_ingress_pending f s kv).1 k ≡ none
unfolding take_ingress_pending
take_ingress_pending_gone f s k kv e d g = take_at_gone f (ingress_pending_key s) k kv e d g

has_at-true : (f : Faults) (o : Option Text) (kv : Kv) → has_at f o kv ≡ true → Holds o kv
unfolding has_at get_bytes_opt is_found
has_at-true f none kv h = absurd (cc)
has_at-true f (some k) kv h = λ e. ground (arith, e)

pub is_ingress_trusted-true :
    (f : Faults) (s : Text) (kv : Kv) → is_ingress_trusted f s kv ≡ true → IsTrusted s kv
unfolding is_ingress_trusted
is_ingress_trusted-true f s kv h = has_at-true f (ingress_trust_key s) kv h

decision_at_ext :
    (f : Faults) (k : Text) (kv kv' : Kv)
    → kv' k ≡ kv k
    → decision_at f (some k) kv' ≡ decision_at f (some k) kv
unfolding decision_at get_bytes_opt
decision_at_ext f k kv kv' e = rw (e, decision_at) refl

-- A durable decision depends on the value at its own key only.
pub recorded_ext :
    (f : Faults) (c : Text) (kv kv' : Kv)
    → ((k : Text) → grant_decision_key c ≡ some k → kv' k ≡ kv k)
    → recorded_grant_decision f c kv' ≡ recorded_grant_decision f c kv
unfolding recorded_grant_decision
recorded_ext f c kv kv' same = go (grant_decision_key c) refl
  where
    go : (o : Option Text) → grant_decision_key c ≡ o → decision_at f o kv' ≡ decision_at f o kv
    go none e = refl
    go (some k) e = decision_at_ext f k kv kv' (same k e)

take_at_absent :
    (f : Faults) (o : Option Text) (j : Text) (kv : Kv) → kv j ≡ none → (take_at f o kv).1 j ≡ none
unfolding take_at
take_at_absent f none j kv n = n
take_at_absent f (some k) j kv n = ground (arith, n, delete_absent f k j kv n)

-- Taking a prompt's marker makes no marker.
pub take_ingress_pending_absent :
    (f : Faults) (s j : Text) (kv : Kv) → kv j ≡ none → (take_ingress_pending f s kv).1 j ≡ none
unfolding take_ingress_pending
take_ingress_pending_absent f s j kv n = take_at_absent f (ingress_pending_key s) j kv n

module _ (f : Faults) (s k v : Text) (kv : Kv) where
  -- A marker that is there is found.
  pub take_ingress_pending_found :
      ingress_pending_key s ≡ some k
      → f.get_fails k ≡ false
      → kv k ≡ some v
      → (take_ingress_pending f s kv).0 ≡ true
  unfolding take_ingress_pending take_at get_bytes_opt
  take_ingress_pending_found e g h = rw e (ground (arith, g, h))

  pub is_ingress_trusted_found :
      ingress_trust_key s ≡ some k
      → f.get_fails k ≡ false
      → kv k ≡ some v
      → is_ingress_trusted f s kv ≡ true
  unfolding is_ingress_trusted has_at is_found get_bytes_opt
  is_ingress_trusted_found e g h = rw (e, g, h) refl

pub mark_ingress_pending_at :
    (f : Faults) (s k : Text) (kv : Kv)
    → ingress_pending_key s ≡ some k
    → f.set_fails k ≡ false
    → mark_ingress_pending f s kv k ≡ some mark_value
unfolding mark_ingress_pending set_bytes
mark_ingress_pending_at f s k kv e g = rw (e, g, put_self k (some mark_value) kv) refl
