-- ===== src/Broker/Call/Guarded.antt =====
-- About the conditions under which `handle_mcp_call` (crates/aos-mcp-broker/src/broker.rs) runs a
-- tool and decides a grant.
use unicity_aos.Base.{
  ◌≡◌, refl, true, [], ◌∷◌, ◌++◌, All, All-append, Option, none, some, arith, inl, inr,
  Option-cases, Bool-cases,
}
use unicity_aos.Base.Text.{Text, text_eq}
use unicity_aos.Broker.Kv.{Kv}
use unicity_aos.Broker.Topics.{is_valid_tool_name, reply_topic, response_topic}
use unicity_aos.Broker.Policy.{Decision, allowed, denied, evaluate, LoadError}
use unicity_aos.Broker.Consent.{
  is_ingress_trusted, grant_action, recorded_grant_decision, auto_approve, auto_deny, prompt,
  grant_pending, GrantAction,
}
use unicity_aos.Broker.Messages
use unicity_aos.Broker.Messages.{Message, Reply, Verb, GrantRequired, is_approve_verb}
use unicity_aos.Broker.Dispatch.{DispatchOutcome, dispatch_with_approval}
use unicity_aos.Broker.Respond.{Caller}
use unicity_aos.Broker.Call.{
  CallRequest, Host, rules, pretooluse_gate_tool, handle_mcp_call, call_on_topic, called_by,
  trusted_call, dispatched, grant_outcome, prompt_outcome, auto_approve_messages,
  auto_deny_messages, auto_decision, gate_messages, gate_audit, gate_reply_body, load_audit,
}

module _ {Value : Type 0} (h : Host Value) (r : CallRequest Value) (kv : Kv) where
  -- The caller is known and is a trusted ingress, and the policy allows the call.
  pub record MayRun : Type 0 where
    pub caller : Caller
    pub known : h.caller ≡ some caller
    pub trusted : is_ingress_trusted h.faults caller.source_id kv ≡ true
    pub policy : evaluate h.json (rules h).rules r.name r.arguments ≡ allowed

  -- An approve on record for some capsule.
  abbrev pub Recorded : Type 0
  Recorded =
      (capsule_id : Text) × (grant_action (recorded_grant_decision h.faults capsule_id kv)
        ≡ auto_approve)

  -- What a message needs: to run a tool, permission and a valid tool name; to decide a grant,
  -- permission, and for an approve a recorded one.
  abbrev pub Licensed : Message Value → Type 0
  Licensed (Message.execute topic call_id name arguments) =
      MayRun × (name ≡ r.name) × (arguments ≡ r.arguments) × (is_valid_tool_name name ≡ true)
  Licensed (Message.decision topic id verb reason) =
      MayRun × (is_approve_verb verb ≡ true → Recorded)
  Licensed _ = Unit

  load_audit-Licensed : (o : Option LoadError) → All Licensed (load_audit o)
  load_audit-Licensed none = tt
  load_audit-Licensed (some e) = (tt, tt)

  on_topic-Licensed :
      (o : Option Text) (id : Text) (verb : Verb)
      → MayRun
      → (is_approve_verb verb ≡ true → Recorded)
      → All Licensed (Messages.on_topic o (λ topic. Message.decision topic id verb none))
  on_topic-Licensed none id verb m a = tt
  on_topic-Licensed (some topic) id verb m a = ((m, a), tt)

  decision-Licensed :
      (id : Text) (verb : Verb)
      → MayRun
      → (is_approve_verb verb ≡ true → Recorded)
      → All Licensed (auto_decision h id verb)
  unfolding auto_decision
  decision-Licensed id verb m a = on_topic-Licensed (response_topic id) id verb m a

  auto_approve-Licensed :
      (topic : Text) (g : GrantRequired)
      → MayRun
      → Recorded
      → All Licensed (auto_approve_messages h topic r g)
  unfolding auto_approve_messages
  auto_approve-Licensed topic g m a = elim (Option-cases (response_topic g.request_id)) [
    | inl e ↦ rw (e, auto_approve_messages) (tt, tt)
    | inr (t, e) ↦
        rw (e, auto_approve_messages)
          (All-append Licensed _ _ (decision-Licensed g.request_id Verb.approve m (λ _. a))
            (tt, (tt, tt)))
  ]

  auto_deny-Licensed :
      (topic p : Text) (g : GrantRequired)
      → MayRun
      → All Licensed (auto_deny_messages h topic r p g)
  unfolding auto_deny_messages is_approve_verb
  auto_deny-Licensed topic p g m = elim (Option-cases (response_topic g.request_id)) [
    | inl e ↦ rw (e, auto_deny_messages) (tt, tt)
    | inr (t, e) ↦
        rw (e, auto_deny_messages)
          (All-append Licensed _ _ (decision-Licensed g.request_id Verb.deny m (λ q. absurd (cc)))
            (tt, (tt, tt)))
  ]

  prompt-Licensed :
      (topic : Text) (g : GrantRequired) → All Licensed (prompt_outcome h topic r g kv).1
  unfolding prompt_outcome
  prompt-Licensed topic g = elim (Bool-cases (grant_pending h.faults h.wall_ms g.capsule_id kv).0) [
    | inl e ↦ rw (e, prompt_outcome) (tt, tt)
    | inr e ↦ rw (e, prompt_outcome) (tt, tt)
  ]

  grant-Licensed :
      (topic p : Text) (g : GrantRequired)
      → MayRun
      → All Licensed (grant_outcome h topic r p g kv).1
  unfolding grant_outcome
  grant-Licensed topic p g m =
      go (grant_action (recorded_grant_decision h.faults g.capsule_id kv)) refl
    where
      go :
          (a : GrantAction)
          → grant_action (recorded_grant_decision h.faults g.capsule_id kv) ≡ a
          → All Licensed (grant_outcome h topic r p g kv).1
      go auto_approve e = rw (e, grant_outcome) (auto_approve-Licensed topic g m (g.capsule_id, e))
      go auto_deny e = rw (e, grant_outcome) (auto_deny-Licensed topic p g m)
      go prompt e = rw (e, grant_outcome) (prompt-Licensed topic g)

  dispatched-Licensed :
      (topic p : Text) (o : DispatchOutcome Value)
      → MayRun
      → All Licensed (dispatched h topic r p o kv).1
  unfolding dispatched
  dispatched-Licensed topic p (DispatchOutcome.result v e) m = (tt, tt)
  dispatched-Licensed topic p (DispatchOutcome.approval_required a) m = (tt, tt)
  dispatched-Licensed topic p (DispatchOutcome.grant_required g) m = grant-Licensed topic p g m
  dispatched-Licensed topic p DispatchOutcome.failed m = (tt, tt)

  dispatch-Licensed :
      MayRun
      → All Licensed (dispatch_with_approval h.json h.envelopes r.name r.req_id r.arguments h.bus).0
  unfolding dispatch_with_approval
  dispatch-Licensed m = elim (Bool-cases (is_valid_tool_name r.name)) [
    | inl v ↦ ground (arith, v)
    | inr v ↦ rw (v, dispatch_with_approval) tt
  ]

  trusted-Licensed :
      (topic : Text) (c : Caller)
      → h.caller ≡ some c
      → is_ingress_trusted h.faults c.source_id kv ≡ true
      → All Licensed (trusted_call h topic r c.principal kv).1
  unfolding trusted_call
  trusted-Licensed topic c e t = go (evaluate h.json (rules h).rules r.name r.arguments) refl
    where
      go :
          (d : Decision)
          → evaluate h.json (rules h).rules r.name r.arguments ≡ d
          → All Licensed (trusted_call h topic r c.principal kv).1
      go (denied rule) q =
          rw (q, trusted_call)
            (All-append Licensed _ _ (load_audit-Licensed (rules h).audit) (tt, (tt, tt)))
      go allowed q =
          let m : MayRun = record { caller = c; known = e; trusted = t; policy = q } in
          rw (q, trusted_call)
            (All-append Licensed _ _ (load_audit-Licensed (rules h).audit) (
              All-append Licensed _ _ (dispatch-Licensed m)
                (dispatched-Licensed topic c.principal _ m)))

  gate-Licensed : (topic : Text) → All Licensed (gate_messages h topic r)
  unfolding gate_messages gate_audit
  gate-Licensed topic = All-append Licensed _ _ (load_audit-Licensed (rules h).audit) (gated _ _)
    where
      gated :
          (tool : Text) (d : Decision)
          → All Licensed (
              gate_audit h tool d
              ++ (Message.call_reply topic r.req_id (Reply.gate_reply (gate_reply_body h d)) ∷ []))
      gated tool allowed = (tt, tt)
      gated tool (denied rule) = (tt, (tt, tt))

  called-Licensed :
      (topic : Text) (o : Option Caller) → h.caller ≡ o → All Licensed (called_by h topic r o kv).1
  unfolding called_by
  called-Licensed topic none e = (tt, tt)
  called-Licensed topic (some c) e =
      elim (Bool-cases (is_ingress_trusted h.faults c.source_id kv)) [
        | inl t ↦ rw (t, called_by) (trusted-Licensed topic c e t)
        | inr t ↦ rw (t, called_by) (tt, tt)
      ]

  on_call-Licensed : (o : Option Text) → All Licensed (call_on_topic h r o kv).1
  unfolding call_on_topic
  on_call-Licensed none = tt
  on_call-Licensed (some topic) = elim (Bool-cases (text_eq r.name pretooluse_gate_tool)) [
    | inl g ↦ rw (g, call_on_topic) (gate-Licensed topic)
    | inr g ↦ rw (g, call_on_topic) (called-Licensed topic h.caller refl)
  ]

  -- Whatever the request and the store, a `tool.call` runs a tool only if its caller is a trusted
  -- ingress and the policy allows the call, then that tool with those arguments under a valid name;
  -- and it decides a grant only under the same conditions, an approve only where the store has one
  -- on record.
  pub handle_mcp_call-Licensed : All Licensed (handle_mcp_call h (some r) kv).1
  unfolding handle_mcp_call
  handle_mcp_call-Licensed = on_call-Licensed (reply_topic r.req_id)
