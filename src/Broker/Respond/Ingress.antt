-- ===== src/Broker/Respond/Ingress.antt =====
-- About `handle_mcp_ingress_respond` (crates/aos-mcp-broker/src/approval.rs).
use unicity_aos.Base.{
  ◌≡◌, ◌≢◌, refl, ap, ◌∙◌, subst, Bool, true, false, Option, none, some, arith, ◌⊎◌, inl, inr,
  Bool-cases,
}
use unicity_aos.Base.Text.{Text, text_eq, text_eq_iff}
use unicity_aos.Broker.Kv.{Kv, Faults, set_bytes_ne}
use unicity_aos.Broker.Consent.{
  trust_prefix, ingress_trust_key, ingress_pending_key, grant_decision_key, take_ingress_pending,
  mark_value,
}
use unicity_aos.Broker.Consent.Keys.{
  trust-ne-pending, trust-ne-grant_decision, pending-ne-grant_decision, suffix_key_inj,
}
use unicity_aos.Broker.Consent.Frame.{
  Holds-key, Holds-of_key, IsTrusted, IsPrompted, take_ingress_pending_ne,
  take_ingress_pending-true, take_ingress_pending_gone, take_ingress_pending_absent,
}
use unicity_aos.Broker.Respond.{
  Caller, IngressRespond, handle_mcp_ingress_respond, answer_ingress, record_trust,
}

-- The respond of the caller accepts.
abbrev pub Accepts : Text → Option Caller → Option IngressRespond → Type 0
Accepts source_id (some c) (some r) = (c.source_id ≡ source_id) × (r.accept ≡ true)
Accepts source_id _ _ = ⊥

module _ (Value : Type 0) (f : Faults) (k : Text) where
  -- A write at the key needs the accept of an outstanding prompt.
  record_trust_cases :
      (r : IngressRespond) (s : Text) (o : Option Text) (kv : Kv)
      → ((record_trust {Value = Value} f r s o kv).0 k ≡ kv k) ⊎ (o ≡ some k)
  unfolding record_trust
  record_trust_cases r s none kv = inl refl
  record_trust_cases r s (some j) kv = elim (Bool-cases (text_eq j k)) [
    | inl q ↦ inr (ap some ((text_eq_iff j k).0 q))
    | inr q ↦
        let d : j ≢ k = λ e. cc ((text_eq_iff j k).1 e) in
        inl (ground (arith, set_bytes_ne f j mark_value k kv d))
  ]

  answer_ingress_cases :
      (r : IngressRespond) (s : Text) (had : Bool) (kv : Kv)
      → ((answer_ingress {Value = Value} f r s had kv).0 k ≡ kv k)
        ⊎ ((r.accept ≡ true) × (had ≡ true) × (ingress_trust_key s ≡ some k))
  unfolding answer_ingress
  answer_ingress_cases r s had kv = ground (arith, record_trust_cases r s (ingress_trust_key s) kv)

  -- A respond writes at a trust key only for its caller, on an accept, with a prompt outstanding.
  respond_cases :
      (caller : Option Caller) (req : Option IngressRespond) (s : Text) (kv : Kv)
      → ingress_trust_key s ≡ some k
      → ((handle_mcp_ingress_respond {Value = Value} f caller req kv).0 k ≡ kv k)
        ⊎ (Accepts s caller req × IsPrompted s kv)
  unfolding handle_mcp_ingress_respond
  respond_cases caller none s kv e = inl refl
  respond_cases none (some r) s kv e = inl refl
  respond_cases (some c) (some r) s kv e =
      elim (answer_ingress_cases r c.source_id (take_ingress_pending f c.source_id kv).0
        (take_ingress_pending f c.source_id kv).1) [
          | inl same ↦ inl (
              same
              ∙ take_ingress_pending_ne f k kv c.source_id (trust-ne-pending s c.source_id k e))
          | inr (a, h, q) ↦
              let same : c.source_id ≡ s = suffix_key_inj trust_prefix c.source_id s k q e in
              inr (
                (same, a),
                subst (λ x. IsPrompted x kv) same (take_ingress_pending-true f c.source_id kv h),
              )
        ]

-- An ingress that is trusted after a respond was trusted before, or the respond is an accept sent by
-- that very ingress, while a prompt for it was outstanding.
pub respond-IsTrusted :
    (Value : Type 0) (f : Faults) (caller : Option Caller) (req : Option IngressRespond) (s : Text)
    (kv : Kv)
    → IsTrusted s (handle_mcp_ingress_respond {Value = Value} f caller req kv).0
    → IsTrusted s kv ⊎ (Accepts s caller req × IsPrompted s kv)
respond-IsTrusted Value f caller req s kv h =
    let (k, e, n) = Holds-key (ingress_trust_key s) h in
    elim (respond_cases Value f k caller req s kv e) [
      | inl same ↦ inl (Holds-of_key (ingress_trust_key s) k kv e (λ q. n (same ∙ q)))
      | inr a ↦ inr a
    ]

module _ (Value : Type 0) (f : Faults) (k : Text) where
  record_trust_ne :
      (r : IngressRespond) (s : Text) (o : Option Text) (kv : Kv)
      → o ≢ some k
      → (record_trust {Value = Value} f r s o kv).0 k ≡ kv k
  record_trust_ne r s o kv n = elim (record_trust_cases Value f k r s o kv) [
    | inl same ↦ same
    | inr e ↦ absurd (n e)
  ]

  answer_ingress_ne :
      (r : IngressRespond) (t : Text) (had : Bool) (s : Text) (kv : Kv)
      → ingress_pending_key s ≡ some k
      → (answer_ingress {Value = Value} f r t had kv).0 k ≡ kv k
  answer_ingress_ne r t had s kv e = elim (answer_ingress_cases Value f k r t had kv) [
    | inl same ↦ same
    | inr (a, b, q) ↦ absurd (trust-ne-pending t s k q e)
  ]

  -- A respond makes no prompt.
  pub respond_prompt :
      (caller : Option Caller) (req : Option IngressRespond) (s : Text) (kv : Kv)
      → ingress_pending_key s ≡ some k
      → kv k ≡ none
      → (handle_mcp_ingress_respond {Value = Value} f caller req kv).0 k ≡ none
  unfolding handle_mcp_ingress_respond
  respond_prompt caller none s kv e n = n
  respond_prompt none (some r) s kv e n = n
  respond_prompt (some c) (some r) s kv e n =
      answer_ingress_ne r c.source_id (take_ingress_pending f c.source_id kv).0 s
        (take_ingress_pending f c.source_id kv).1 e
      ∙ take_ingress_pending_absent f c.source_id k kv n

  -- Whatever it answers, a respond that reached the store consumes the prompt of its caller: one
  -- prompt cannot be answered twice.
  pub respond-consumes :
      (c : Caller) (r : IngressRespond) (kv : Kv)
      → ingress_pending_key c.source_id ≡ some k
      → f.get_fails k ≡ false
      → f.delete_fails k ≡ false
      → (handle_mcp_ingress_respond {Value = Value} f (some c) (some r) kv).0 k ≡ none
  unfolding handle_mcp_ingress_respond
  respond-consumes c r kv e g d =
      answer_ingress_ne r c.source_id (take_ingress_pending f c.source_id kv).0 c.source_id
        (take_ingress_pending f c.source_id kv).1 e
      ∙ take_ingress_pending_gone f c.source_id k kv e d g

  -- A respond leaves the durable decisions alone.
  pub respond_decision :
      (caller : Option Caller) (req : Option IngressRespond) (c : Text) (kv : Kv)
      → grant_decision_key c ≡ some k
      → (handle_mcp_ingress_respond {Value = Value} f caller req kv).0 k ≡ kv k
  unfolding handle_mcp_ingress_respond
  respond_decision caller none c kv e = refl
  respond_decision none (some r) c kv e = refl
  respond_decision (some d) (some r) c kv e =
      let (had_prompt, kv') = take_ingress_pending f d.source_id kv in
      elim (answer_ingress_cases Value f k r d.source_id had_prompt kv') [
        | inl same ↦ same
        | inr (a, b, q) ↦ absurd (trust-ne-grant_decision d.source_id c k q e)
      ]
      ∙ take_ingress_pending_ne f k kv d.source_id
          (λ q. pending-ne-grant_decision d.source_id c k q e)
