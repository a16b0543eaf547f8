-- ===== src/Broker/Approval/Decides.antt =====
-- About `handle_mcp_approval` (crates/aos-mcp-broker/src/approval.rs): what it publishes.
use unicity_aos.Base.{
  ℕ, ◌+◌, not, if-cases, arith, subst, ◌<◌, ◌≡◌, ◌≢◌, refl, sym, ap, ◌∙◌, Bool, false, Option-cases,
  true, List, [], ◌∷◌, Option, none, some, Bool-cases, inl, inr,
}
use unicity_aos.Base.Text.{Text}
use unicity_aos.Base.Json.{Json}
use unicity_aos.Broker.Kv.{Kv, Faults}
use unicity_aos.Broker.Topics.{reply_topic, response_topic, is_valid_tool_name}
use unicity_aos.Broker.Consent.{is_ingress_trusted}
use unicity_aos.Broker.Messages.{Verb, Reply, Message, normalize_decision, shown_reason, on_topic}
use unicity_aos.Broker.Slices.{drain, Drained, timed_out, found, drain-Drained}
use unicity_aos.Broker.Dispatch.{slice_result}
use unicity_aos.Broker.Respond.{Caller}
use unicity_aos.Broker.Respond.Verbs.{Says, IsTrustedCaller, normalize_decision-Says}
use unicity_aos.Broker.Approval.{
  ApprovalRespond, ResultBus, handle_mcp_approval, approval_on_topic, resolve_with_decision,
  after_drain, drain_result, resumed, resumed_by, terminal, resume_fuel, resume_slice_ms,
  resume_timeout_ms,
}

module _ {Value : Type 0} (json : Json Value) (f : Faults) (kv : Kv) (r : ApprovalRespond)
    (bus : ResultBus) where
  -- A trusted ingress decides what its text says, with its reason; anyone else denies without one.
  pub data Decided (caller : Option Caller) (v : Verb) (reason : Option Text) : Type 0 where
    refused :
        ¬ IsTrustedCaller f kv caller → v ≡ Verb.deny → reason ≡ none → Decided caller v reason
    taken :
        IsTrustedCaller f kv caller
        → Says r.decision v
        → reason ≡ shown_reason r.reason
        → Decided caller v reason

  abbrev result_at : ℕ → Option (Value × Bool)
  result_at i = slice_result json r.call_id (bus.slices i)

  -- What the parked tool ends with: the first result of its call in 200 slices; an error if there is
  -- none, if the tool's name makes no topic, or if the subscription fails.
  pub data Ends (body : Reply Value) : Type 0 where
    unnamed : is_valid_tool_name r.tool_name ≡ false → body ≡ Reply.error [] → Ends body
    unsubscribed :
        is_valid_tool_name r.tool_name ≡ true
        → bus.subscribes ≡ false
        → body ≡ Reply.error []
        → Ends body
    no_result :
        is_valid_tool_name r.tool_name ≡ true
        → bus.subscribes ≡ true
        → ((j : ℕ) → j < 200 → result_at j ≡ none)
        → body ≡ Reply.error []
        → Ends body
    resumes :
        is_valid_tool_name r.tool_name ≡ true
        → bus.subscribes ≡ true
        → (j : ℕ) (content : Value) (is_error : Bool) → j < 200
        → ((l : ℕ) → l < j → result_at l ≡ none)
        → result_at j ≡ some (content, is_error)
        → body ≡ Reply.result content is_error
        → Ends body

  abbrev round : ℕ → Option (Option (Value × Bool))
  round i = resumed_by json (result_at i)

  round-none : (i : ℕ) → round i ≡ none → result_at i ≡ none
  unfolding resumed_by
  round-none i e = elim (Option-cases (result_at i)) [
    | inl q ↦ q
    | inr (x, q) ↦ absurd (cc (ap (resumed_by json) q, e))
  ]

  round-some : (i : ℕ) (o : Option (Value × Bool)) → round i ≡ some o → result_at i ≡ o
  unfolding resumed_by
  round-some i o e = elim (Option-cases (result_at i)) [
    | inl q ↦ absurd (cc (ap (resumed_by json) q, e))
    | inr (x, q) ↦
        let same : some (some x) ≡ some o = sym (ap (resumed_by json) q) ∙ e in q ∙ cc same
  ]

  round_ne : (i : ℕ) → round i ≢ some none
  unfolding resumed_by
  round_ne i e = elim (Option-cases (result_at i)) [
    | inl q ↦ cc (ap (resumed_by json) q, e)
    | inr (x, q) ↦
        let same : some (some x) ≡ some none = sym (ap (resumed_by json) q) ∙ e in absurd (cc same)
  ]

  zero_add : (j : ℕ) → 0 + j ≡ j
  zero_add j = omega arith

  quiet_at : (j : ℕ) → round (0 + j) ≡ none → result_at j ≡ none
  quiet_at j e = round-none j (rw (zero_add j) at e)

  Drained-Ends :
      is_valid_tool_name r.tool_name ≡ true
      → bus.subscribes ≡ true
      → (o : Option (Value × Bool)) → Drained round none 0 200 o
      → Ends (terminal json o)
  Drained-Ends name sub o (timed_out quiet e) =
      no_result name sub (λ j l. quiet_at j (quiet j l)) (rw e refl)
  Drained-Ends name sub none (found j l quiet e) = absurd (round_ne j (rw (zero_add j) at e))
  Drained-Ends name sub (some (content, is_error)) (found j l quiet e) =
      resumes name sub j content is_error l (λ i h. quiet_at i (quiet i h))
        (round-some j (some (content, is_error)) (rw (zero_add j) at e)) refl

  drain_result-Drained :
      (o : Option (Value × Bool)) × (drain_result json r.call_id bus ≡ o)
      × Drained round none 0 200 o
  unfolding drain_result
  drain_result-Drained =
      let (o, e, d) = drain-Drained round none 200 0 in
      let ends : drain resume_slice_ms round none resume_fuel 0 resume_timeout_ms ≡ some o = e in
      (o, ap (after_drain json) ends, d)

  resumed-Ends :
      is_valid_tool_name r.tool_name ≡ true → Ends (terminal json (resumed json r.call_id bus))
  unfolding resumed
  resumed-Ends name =
      if-cases (λ o. Ends (terminal json o)) bus.subscribes
        (λ s.
          let (o, e, d) = drain_result-Drained in
          subst (λ x. Ends (terminal json x)) (sym e) (Drained-Ends name s o d))
        (λ s. unsubscribed name s refl)

  -- One decision, and one terminal reply on a routable request id.
  abbrev Answered : Option Caller → Text → List (Message Value) → Type 0
  Answered caller t sent =
      (v : Verb) × (reason : Option Text) × (body : Reply Value) × (sent
        ≡ Message.decision t r.request_id v reason
          ∷ on_topic (reply_topic r.req_id) (λ topic. Message.call_reply topic r.req_id body))
      × Decided caller v reason
      × Ends body

  resolved :
      (caller : Option Caller) (t : Text) (v : Verb) (reason : Option Text)
      → Decided caller v (shown_reason reason)
      → Answered caller t (resolve_with_decision json r t v reason bus)
  unfolding resolve_with_decision
  resolved caller t v reason d = elim (Bool-cases (is_valid_tool_name r.tool_name)) [
    | inl e ↦ rw e (
      v,
      shown_reason reason,
      terminal json (resumed json r.call_id bus),
      refl,
      d,
      resumed-Ends e,
    )
    | inr e ↦ rw e (v, shown_reason reason, Reply.error [], refl, d, unnamed e refl)
  ]

  denied_lem :
      (caller : Option Caller)
      → ¬ IsTrustedCaller f kv caller
      → Decided caller Verb.deny (shown_reason none)
  unfolding shown_reason
  denied_lem caller n = refused n refl refl

  answered :
      (caller : Option Caller) (t : Text)
      → Answered caller t (approval_on_topic json f kv caller r bus (some t))
  unfolding approval_on_topic
  answered none t = resolved none t Verb.deny none (denied_lem none (λ a. a))
  answered (some c) t =
      if-cases (Answered (some c) t) (not (is_ingress_trusted f c.source_id kv))
        (λ u. resolved (some c) t Verb.deny none (denied_lem (some c) (λ a. ground (arith, a, u))))
        (λ u.
          resolved (some c) t (normalize_decision r.decision) r.reason
            (taken (ground (arith, u)) (normalize_decision-Says r.decision) refl))

  -- On a routable approval id the answer publishes one decision and then, where its own request id
  -- is routable, one terminal reply. The decision of a trusted ingress is the approval that its text
  -- is the word of, or else a denial; any other caller's is a denial. The reply is the first result
  -- of the call in the 200 slices of the window, or an error.
  pub approval_publishes :
      (caller : Option Caller) (t : Text)
      → response_topic r.request_id ≡ some t
      → (v : Verb) × (reason : Option Text) × (body : Reply Value) × (handle_mcp_approval json f kv
            caller
            (some r)
            bus
          ≡ Message.decision t r.request_id v reason
            ∷ on_topic (reply_topic r.req_id) (λ topic. Message.call_reply topic r.req_id body))
        × Decided caller v reason
        × Ends body
  unfolding handle_mcp_approval
  approval_publishes caller t e = rw e (answered caller t)
