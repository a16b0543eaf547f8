-- ===== src/Broker/Respond/Verbs.antt =====
-- What a decision's text says, and whose decision counts (crates/aos-mcp-broker/src/approval.rs).
use unicity_aos.Base.{
  ◌≡◌, ◌≢◌, ◌↔◌, ◌⊎◌, refl, inl, inr, true, Option, none, some, codes, Bool-cases,
}
use unicity_aos.Base.Text.{Text, text_eq, text_eq_iff, trim, to_ascii_lowercase}
use unicity_aos.Broker.Kv.{Kv, Faults}
use unicity_aos.Broker.Consent.{is_ingress_trusted}
use unicity_aos.Broker.Messages.{Verb, normalize_decision, is_approve_verb}
use unicity_aos.Broker.Respond.{Caller}

-- The word of a decision, without spaces around it and in lower case.
abbrev word : Text → Text
word decision = to_ascii_lowercase (trim decision)

-- The three approvals are said by their word, and any other text says no.
abbrev pub Says : Text → Verb → Type 0
Says d Verb.approve = word d ≡ codes "approve"
Says d Verb.approve_session = word d ≡ codes "approve_session"
Says d Verb.approve_always = word d ≡ codes "approve_always"
Says d Verb.deny =
    (word d ≢ codes "approve")
    × (word d ≢ codes "approve_session")
    × (word d ≢ codes "approve_always")

pub normalize_decision-Says : (d : Text) → Says d (normalize_decision d)
unfolding normalize_decision
normalize_decision-Says d = elim (Bool-cases (text_eq (word d) (codes "approve"))) [
  | inl a ↦ rw a ((text_eq_iff _ _).0 a)
  | inr a ↦ elim (Bool-cases (text_eq (word d) (codes "approve_session"))) [
    | inl b ↦ rw (a, b) ((text_eq_iff _ _).0 b)
    | inr b ↦ elim (Bool-cases (text_eq (word d) (codes "approve_always"))) [
      | inl c ↦ rw (a, b, c) ((text_eq_iff _ _).0 c)
      | inr c ↦
          rw (a, b, c)
            (
              λ e. cc (a, (text_eq_iff _ _).1 e),
              λ e. cc (b, (text_eq_iff _ _).1 e),
              λ e. cc (c, (text_eq_iff _ _).1 e),
            )
    ]
  ]
]

pub is_approve_verb_iff : (v : Verb) → (is_approve_verb v ≡ true) ↔ (v ≢ Verb.deny)
unfolding is_approve_verb
is_approve_verb_iff Verb.deny = (λ e. absurd (cc e), λ n. absurd (n refl))
is_approve_verb_iff Verb.approve = (λ e q. cc q, λ n. refl)
is_approve_verb_iff Verb.approve_session = (λ e q. cc q, λ n. refl)
is_approve_verb_iff Verb.approve_always = (λ e q. cc q, λ n. refl)

-- The host names a caller, and it is a trusted ingress.
abbrev pub IsTrustedCaller : Faults → Kv → Option Caller → Type 0
IsTrustedCaller f kv none = ⊥
IsTrustedCaller f kv (some c) = is_ingress_trusted f c.source_id kv ≡ true

-- A trusted ingress decides what its text says; anyone else denies.
abbrev pub Decides : Faults → Kv → Option Caller → Text → Verb → Type 0
Decides f kv caller d v =
    (IsTrustedCaller f kv caller × Says d v) ⊎ ((¬ IsTrustedCaller f kv caller) × (v ≡ Verb.deny))
