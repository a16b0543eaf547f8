-- ===== src/Broker/Call/Answered.antt =====
-- About the reply of `handle_mcp_call` (crates/aos-mcp-broker/src/broker.rs).
use unicity_aos.Base.{
  ◌≡◌, refl, List, [], ◌∷◌, ◌++◌, All, Option, none, some, inl, inr, Option-cases, Bool-cases,
  arith,
}
use unicity_aos.Base.Text.{Text, text_eq}
use unicity_aos.Broker.Kv.{Kv}
use unicity_aos.Broker.Topics.{reply_topic, response_topic}
use unicity_aos.Broker.Policy.{Decision, allowed, denied, evaluate, LoadError}
use unicity_aos.Broker.Consent.{
  is_ingress_trusted, grant_action, recorded_grant_decision, GrantAction, auto_approve, auto_deny,
  prompt, grant_pending,
}
use unicity_aos.Broker.Messages
use unicity_aos.Broker.Messages.{Message, Reply, Verb, GrantRequired}
use unicity_aos.Broker.Dispatch.{DispatchOutcome, dispatch_with_approval}
use unicity_aos.Broker.Topics.{is_valid_tool_name}
use unicity_aos.Broker.Respond.{Caller}
use unicity_aos.Broker.Call.{
  CallRequest, Host, rules, pretooluse_gate_tool, handle_mcp_call, call_on_topic, called_by,
  trusted_call, dispatched, grant_outcome, prompt_outcome, auto_approve_messages,
  auto_deny_messages, auto_decision, gate_messages, gate_audit, gate_reply_body, load_audit,
}

-- The message is no reply to a call.
abbrev pub NoReply : {Value : Type 0} → Message Value → Type 0
NoReply (Message.call_reply topic id body) = ⊥
NoReply _ = Unit

-- One reply on the topic, to the request, after messages that are none.
pub data Answered {Value : Type 0} (topic id : Text) : List (Message Value) → Type 0 where
  last : (body : Reply Value) → Answered topic id (Message.call_reply topic id body ∷ [])
  before :
      {m : Message Value} {ms : List (Message Value)}
      → NoReply m
      → Answered topic id ms
      → Answered topic id (m ∷ ms)

append-Answered :
    {Value : Type 0} {t id : Text} (xs : List (Message Value)) {ys : List (Message Value)}
    → All NoReply xs
    → Answered t id ys
    → Answered t id (xs ++ ys)
append-Answered [] n a = a
append-Answered (x ∷ xs) (n, ns) a = before n (append-Answered xs ns a)

module _ {Value : Type 0} (h : Host Value) (r : CallRequest Value) (topic : Text) (kv : Kv) where
  load_audit-NoReply : (o : Option LoadError) → All NoReply (load_audit {Value = Value} o)
  load_audit-NoReply none = tt
  load_audit-NoReply (some e) = (tt, tt)

  auto_decision-NoReply : (id : Text) (verb : Verb) → All NoReply (auto_decision h id verb)
  unfolding auto_decision
  auto_decision-NoReply id verb = go (response_topic id)
    where
      go :
          (o : Option Text)
          → All NoReply (Messages.on_topic {Value = Value} o (λ t. Message.decision t id verb none))
      go none = tt
      go (some t) = (tt, tt)

  auto_approve_messages-Answered :
      (g : GrantRequired) → Answered topic r.req_id (auto_approve_messages h topic r g)
  unfolding auto_approve_messages
  auto_approve_messages-Answered g = elim (Option-cases (response_topic g.request_id)) [
    | inl e ↦ rw (e, auto_approve_messages) (last _)
    | inr (t, e) ↦
        rw (e, auto_approve_messages)
          (append-Answered _ (auto_decision-NoReply g.request_id Verb.approve) (before tt (last _)))
  ]

  auto_deny_messages-Answered :
      (p : Text) (g : GrantRequired) → Answered topic r.req_id (auto_deny_messages h topic r p g)
  unfolding auto_deny_messages
  auto_deny_messages-Answered p g = elim (Option-cases (response_topic g.request_id)) [
    | inl e ↦ rw (e, auto_deny_messages) (last _)
    | inr (t, e) ↦
        rw (e, auto_deny_messages)
          (append-Answered _ (auto_decision-NoReply g.request_id Verb.deny) (before tt (last _)))
  ]

  prompt_outcome-Answered :
      (g : GrantRequired) → Answered topic r.req_id (prompt_outcome h topic r g kv).1
  unfolding prompt_outcome
  prompt_outcome-Answered g =
      elim (Bool-cases (grant_pending h.faults h.wall_ms g.capsule_id kv).0) [
        | inl e ↦ rw (e, prompt_outcome) (last _)
        | inr e ↦ rw (e, prompt_outcome) (last _)
      ]

  grant_outcome-Answered :
      (p : Text) (g : GrantRequired) → Answered topic r.req_id (grant_outcome h topic r p g kv).1
  unfolding grant_outcome
  grant_outcome-Answered p g =
      go (grant_action (recorded_grant_decision h.faults g.capsule_id kv)) refl
    where
      go :
          (a : GrantAction)
          → grant_action (recorded_grant_decision h.faults g.capsule_id kv) ≡ a
          → Answered topic r.req_id (grant_outcome h topic r p g kv).1
      go auto_approve e = rw (e, grant_outcome) (auto_approve_messages-Answered g)
      go auto_deny e = rw (e, grant_outcome) (auto_deny_messages-Answered p g)
      go prompt e = rw (e, grant_outcome) (prompt_outcome-Answered g)

  dispatched-Answered :
      (p : Text) (o : DispatchOutcome Value)
      → Answered topic r.req_id (dispatched h topic r p o kv).1
  unfolding dispatched
  dispatched-Answered p (DispatchOutcome.result v e) = last _
  dispatched-Answered p (DispatchOutcome.approval_required a) = last _
  dispatched-Answered p (DispatchOutcome.grant_required g) = grant_outcome-Answered p g
  dispatched-Answered p DispatchOutcome.failed = last _

  dispatch-NoReply :
      All NoReply (dispatch_with_approval h.json h.envelopes r.name r.req_id r.arguments h.bus).0
  unfolding dispatch_with_approval
  dispatch-NoReply = elim (Bool-cases (is_valid_tool_name r.name)) [
    | inl v ↦ ground (arith, v)
    | inr v ↦ rw (v, dispatch_with_approval) tt
  ]

  trusted_call-Answered : (p : Text) → Answered topic r.req_id (trusted_call h topic r p kv).1
  unfolding trusted_call
  trusted_call-Answered p = go (evaluate h.json (rules h).rules r.name r.arguments) refl
    where
      go :
          (d : Decision)
          → evaluate h.json (rules h).rules r.name r.arguments ≡ d
          → Answered topic r.req_id (trusted_call h topic r p kv).1
      go (denied rule) q =
          rw (q, trusted_call)
            (append-Answered _ (load_audit-NoReply (rules h).audit) (before tt (last _)))
      go allowed q =
          rw (q, trusted_call)
            (append-Answered _ (load_audit-NoReply (rules h).audit)
              (append-Answered _ dispatch-NoReply (dispatched-Answered p _)))

  gate_messages-Answered : Answered topic r.req_id (gate_messages h topic r)
  unfolding gate_messages gate_audit
  gate_messages-Answered = append-Answered _ (load_audit-NoReply (rules h).audit) (gated _ _)
    where
      gated :
          (tool : Text) (d : Decision)
          → Answered topic r.req_id (
              gate_audit h tool d
              ++ (Message.call_reply topic r.req_id (Reply.gate_reply (gate_reply_body h d)) ∷ []))
      gated tool allowed = last _
      gated tool (denied rule) = before tt (last _)

  called_by-Answered : (o : Option Caller) → Answered topic r.req_id (called_by h topic r o kv).1
  unfolding called_by
  called_by-Answered none = last _
  called_by-Answered (some c) = elim (Bool-cases (is_ingress_trusted h.faults c.source_id kv)) [
    | inl t ↦ rw (t, called_by) (trusted_call-Answered c.principal)
    | inr t ↦ rw (t, called_by) (last _)
  ]

  -- Whatever the request, the caller, the policy, the bus and the store, a call on a routable request
  -- id publishes one reply, to that request, as the last of its messages.
  pub handle_mcp_call-Answered :
      reply_topic r.req_id ≡ some topic → Answered topic r.req_id (handle_mcp_call h (some r) kv).1
  unfolding handle_mcp_call call_on_topic
  handle_mcp_call-Answered e = elim (Bool-cases (text_eq r.name pretooluse_gate_tool)) [
    | inl g ↦ rw (e, g) gate_messages-Answered
    | inr g ↦ rw (e, g) (called_by-Answered h.caller)
  ]
