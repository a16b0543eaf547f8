-- ===== src/Broker/History/Steps.antt =====
-- About the trust, the prompts and the decisions in the store under one handler
-- (crates/aos-mcp-broker/src/broker.rs and approval.rs).
use unicity_aos.Base.{◌≡◌, ◌∙◌, some, ◌⊎◌, inl, inr}
use unicity_aos.Base.Text.{Text}
use unicity_aos.Broker.Kv.{Kv}
use unicity_aos.Broker.Consent.{pending_prefix, ingress_trust_key, ingress_pending_key}
use unicity_aos.Broker.Consent.Keys
use unicity_aos.Broker.Consent.Keys.{suffix_key_inj}
use unicity_aos.Broker.Consent.Frame.{Holds-key, Holds-of_key, IsTrusted, IsPrompted}
use unicity_aos.Broker.Respond.{Caller}
use unicity_aos.Broker.Respond.Ingress.{Accepts, respond-IsTrusted, respond_prompt}
use unicity_aos.Broker.Respond.Grant.{grant_respond_ne}
use unicity_aos.Broker.Call.{Host}
use unicity_aos.Broker.Call.Frame.{handle_mcp_call-Written}
use unicity_aos.Broker.History.{Event, call, ingress_respond, grant_respond, step}

-- The event is a call by the ingress.
abbrev pub CalledBy : {Value : Type 0} → Text → Event Value → Type 0
CalledBy source_id (call h req) = (c : Caller) × (h.caller ≡ some c) × (c.source_id ≡ source_id)
CalledBy source_id _ = ⊥

-- The event is an accept from the ingress.
abbrev pub AcceptedBy : {Value : Type 0} → Text → Event Value → Type 0
AcceptedBy source_id (ingress_respond f caller req) = Accepts source_id caller req
AcceptedBy source_id _ = ⊥

module _ {Value : Type 0} (s : Text) (kv : Kv) where
  call_trust :
      (h : Host Value) (req : _) (k : Text)
      → ingress_trust_key s ≡ some k
      → step (call h req) kv k ≡ kv k
  unfolding step
  call_trust h req k e = elim (handle_mcp_call-Written h k kv req) [
    | inl same ↦ same
    | inr (inl (c, q, p)) ↦ absurd (Keys.trust-ne-pending s c.source_id k e p)
    | inr (inr (c, p)) ↦ absurd (Keys.trust-ne-grant_pending s c k e p)
  ]

  pub step-IsTrusted :
      (e : Event Value)
      → IsTrusted s (step e kv)
      → IsTrusted s kv ⊎ (AcceptedBy s e × IsPrompted s kv)
  unfolding step
  step-IsTrusted (call h req) t =
      let (k, e, n) = Holds-key (ingress_trust_key s) t in
      inl (Holds-of_key (ingress_trust_key s) k kv e (λ q. n (call_trust h req k e ∙ q)))
  step-IsTrusted (ingress_respond f caller req) t = respond-IsTrusted Value f caller req s kv t
  step-IsTrusted (grant_respond f caller req) t =
      let (k, e, n) = Holds-key (ingress_trust_key s) t in
      let same =
        grant_respond_ne Value f k kv (λ c. Keys.trust-ne-grant_pending s c k e)
          (λ c. Keys.trust-ne-grant_decision s c k e) caller req in
      inl (Holds-of_key (ingress_trust_key s) k kv e (λ q. n (same ∙ q)))

  pub step-IsPrompted :
      (e : Event Value) → IsPrompted s (step e kv) → IsPrompted s kv ⊎ CalledBy s e
  unfolding step
  step-IsPrompted (call h req) t =
      let (k, e, n) = Holds-key (ingress_pending_key s) t in
      elim (handle_mcp_call-Written h k kv req) [
        | inl same ↦ inl (Holds-of_key (ingress_pending_key s) k kv e (λ q. n (same ∙ q)))
        | inr (inl (c, q, p)) ↦ inr (c, q, suffix_key_inj pending_prefix c.source_id s k p e)
        | inr (inr (c, p)) ↦ absurd (Keys.pending-ne-grant_pending s c k e p)
      ]
  step-IsPrompted (ingress_respond f caller req) t =
      let (k, e, n) = Holds-key (ingress_pending_key s) t in
      inl (
        Holds-of_key (ingress_pending_key s) k kv e
          (λ q. n (respond_prompt Value f k caller req s kv e q)))
  step-IsPrompted (grant_respond f caller req) t =
      let (k, e, n) = Holds-key (ingress_pending_key s) t in
      let same =
        grant_respond_ne Value f k kv (λ c. Keys.pending-ne-grant_pending s c k e)
          (λ c. Keys.pending-ne-grant_decision s c k e) caller req in
      inl (Holds-of_key (ingress_pending_key s) k kv e (λ q. n (same ∙ q)))
