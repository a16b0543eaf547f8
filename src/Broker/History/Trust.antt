-- ===== src/Broker/History/Trust.antt =====
-- About the trust in an ingress in a history of handlers (crates/aos-mcp-broker/src/broker.rs and
-- approval.rs).
use unicity_aos.Base.{◌⊎◌, inl, inr, List, [], ◌∷◌, Option, none, some, Option-cases}
use unicity_aos.Base.Text.{Text}
use unicity_aos.Broker.Kv.{Kv}
use unicity_aos.Broker.Consent.{ingress_trust_key, ingress_pending_key}
use unicity_aos.Broker.Consent.Frame.{Holds, IsTrusted, IsPrompted}
use unicity_aos.Broker.History.{Event, step, run}
use unicity_aos.Broker.History.Steps.{CalledBy, AcceptedBy, step-IsTrusted, step-IsPrompted}

-- An accept of the ingress is among the events.
abbrev pub Accepted : {Value : Type 0} → Text → List (Event Value) → Type 0
Accepted s [] = ⊥
Accepted s (e ∷ es) = AcceptedBy s e ⊎ Accepted s es

-- A call by the ingress is among the events, with an accept of it among those that follow.
abbrev pub Consented : {Value : Type 0} → Text → List (Event Value) → Type 0
Consented s [] = ⊥
Consented s (e ∷ es) = (CalledBy s e × Accepted s es) ⊎ Consented s es

Holds-cases : (o : Option Text) (kv : Kv) → Holds o kv ⊎ (Holds o kv → ⊥)
Holds-cases none kv = inr (λ h. h)
Holds-cases (some k) kv = elim (Option-cases (kv k)) [
  | inl e ↦ inr (λ h. h e)
  | inr (v, e) ↦ inl (λ n. cc)
]

module _ {Value : Type 0} (s : Text) where
  run-Accepted :
      (es : List (Event Value)) (kv : Kv)
      → (IsTrusted s kv → ⊥)
      → IsTrusted s (run es kv)
      → Accepted s es
  unfolding run
  run-Accepted [] kv n t = absurd (n t)
  run-Accepted (e ∷ es) kv n t = elim (Holds-cases (ingress_trust_key s) (step e kv)) [
    | inr m ↦ inr (run-Accepted es (step e kv) m t)
    | inl m ↦ elim (step-IsTrusted s kv e m) [ inl old ↦ absurd (n old) | inr (a, p) ↦ inl a ]
  ]

  -- Where an ingress was neither trusted nor prompted for, and is trusted after any sequence of
  -- handlers, whatever calls on the store failed, the ingress itself made a call and later sent an
  -- accept.
  pub run-Consented :
      (es : List (Event Value)) (kv : Kv)
      → (IsTrusted s kv → ⊥)
      → (IsPrompted s kv → ⊥)
      → IsTrusted s (run es kv)
      → Consented s es
  unfolding run
  run-Consented [] kv n m t = absurd (n t)
  run-Consented (e ∷ es) kv n m t = elim (Holds-cases (ingress_trust_key s) (step e kv)) [
    | inl u ↦ elim (step-IsTrusted s kv e u) [
      | inl old ↦ absurd (n old)
      | inr (a, p) ↦ absurd (m p)
    ]
    | inr n' ↦ elim (Holds-cases (ingress_pending_key s) (step e kv)) [
      | inr m' ↦ inr (run-Consented es (step e kv) n' m' t)
      | inl p ↦ elim (step-IsPrompted s kv e p) [
        | inl old ↦ absurd (m old)
        | inr c ↦ inl (c, run-Accepted es (step e kv) n' t)
      ]
    ]
  ]
