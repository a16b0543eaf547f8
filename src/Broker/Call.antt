-- ===== src/Broker/Call.antt =====
-- `handle_mcp_call` of crates/aos-mcp-broker/src/broker.rs, with the native-tool gate
-- (`pretooluse_gate_reply`) and the grant-on-use outcomes of grant_decision.rs. A request is `none`
-- where its payload does not parse.
pub mod Guarded
pub mod Prompts
pub mod Answered
pub mod Gate
pub mod Frame
use unicity_aos.Base.{
  ℕ, Bool, true, false, not, List, [], ◌∷◌, ◌++◌, Option, none, some, if◌then◌else◌, codes,
}
use unicity_aos.Base.Text.{Text, text_eq}
use unicity_aos.Broker.Kv.{Kv, Faults}
use unicity_aos.Base.Json.{Json, Shape}
use unicity_aos.Broker.Topics.{reply_topic, response_topic}
use unicity_aos.Broker.Policy.{
  Rule, Decision, allowed, denied, evaluate, EnvRead, Loaded, LoadError, load_rules,
}
use unicity_aos.Broker.Consent.{
  GrantAction, auto_approve, auto_deny, prompt, grant_action, is_ingress_trusted,
  mark_ingress_pending, recorded_grant_decision, grant_pending, mark_grant_pending,
}
use unicity_aos.Broker.Messages
use unicity_aos.Broker.Messages.{GateOutput, Message, Reply, Verb, GrantRequired}
use unicity_aos.Broker.Dispatch.{Bus, Envelopes, DispatchOutcome, get_str, dispatch_with_approval}
use unicity_aos.Broker.Respond.{Caller, Outcome}

pub record CallRequest (Value : Type 0) : Type 0 where
  pub req_id : Text
  pub name : Text
  pub arguments : Value

abbrev pub pretooluse_gate_tool : Text
pretooluse_gate_tool = codes "aos_pretooluse_gate"

abbrev pub or_empty : Option Text → Text
or_empty none = []
or_empty (some s) = s

-- The reason that `load_rules` publishes.
unfoldable pub reason_text : LoadError → Text
reason_text LoadError.too_many_rules = codes "too_many_rules"
reason_text LoadError.bad_rule_id = codes "bad_rule_id"
reason_text LoadError.bad_tool_glob = codes "bad_tool_glob"
reason_text LoadError.bad_pointer = codes "bad_pointer"
reason_text LoadError.oversize_matcher_value = codes "oversize_matcher_value"
reason_text LoadError.env_read_error = codes "env_read_error"
reason_text LoadError.parse_error = codes "parse_error"

abbrev pub load_audit : {Value : Type 0} → Option LoadError → List (Message Value)
load_audit none = []
load_audit (some e) = Message.audit (codes "policy_load_failed") (reason_text e) ∷ []

-- What the handler reads of the host, apart from the store.
pub record Host (Value : Type 0) : Type 0 where
  pub json : Json Value
  pub envelopes : Envelopes Value
  pub parse_rules : Text → Option (List Rule)
  pub policy_env : EnvRead
  pub faults : Faults
  pub wall_ms : ℕ
  pub caller : Option Caller
  pub bus : Bus

module _ {Value : Type 0} (h : Host Value) where
  abbrev pub rules : Loaded
  rules = load_rules h.parse_rules h.policy_env

  -- `gate_tool_input`
  unfoldable pub gate_tool_input : Value → Value
  gate_tool_input arguments = elim (h.json.get arguments (codes "tool_input")) [
    | none ↦ h.json.null_value
    | some v ↦ elim (h.json.shape v) [
      | Shape.object ↦ v
      | Shape.array ↦ v
      | Shape.string s ↦ elim (h.json.from_str s) [ none ↦ h.json.null_value | some w ↦ w ]
      | _ ↦ h.json.null_value
    ]
  ]

  pub gate_audit : Text → Decision → List (Message Value)
  gate_audit tool allowed = []
  gate_audit tool (denied rule) = Message.policy_audit (codes "pretooluse_deny") tool rule ∷ []

  -- `gate_reply_body`: the output that is serialized into the content.
  unfoldable pub gate_reply_body : Decision → GateOutput
  gate_reply_body (denied rule) =
      GateOutput.hook_specific_output (codes "PreToolUse") (codes "deny")
        (codes "denied by Astrid policy (rule: " ++ (rule ++ codes ")"))
  gate_reply_body allowed = GateOutput.continue true

  -- `pretooluse_gate_reply` and the publication of its reply.
  gate_messages : Text → CallRequest Value → List (Message Value)
  unfolding gate_audit
  gate_messages topic r =
      let tool = or_empty (get_str h.json r.arguments (codes "tool_name")) in
      let decision = evaluate h.json rules.rules tool (gate_tool_input r.arguments) in
      load_audit rules.audit
      ++ (gate_audit tool decision
          ++ (Message.call_reply topic r.req_id (Reply.gate_reply (gate_reply_body decision)) ∷ []))

  -- `publish_grant_auto_decision`: the decision, if the id is routable.
  auto_decision : Text → Verb → List (Message Value)
  auto_decision request_id verb =
      Messages.on_topic (response_topic request_id)
        (λ topic. Message.decision topic request_id verb none)

  abbrev reply_with : Text → CallRequest Value → Reply Value → List (Message Value)
  reply_with topic r body = Message.call_reply topic r.req_id body ∷ []

  -- The reply to a recorded approve: an unroutable id must not invite a retry.
  auto_approve_messages : Text → CallRequest Value → GrantRequired → List (Message Value)
  unfolding auto_decision
  auto_approve_messages topic r g = elim (response_topic g.request_id) [
    | none ↦ reply_with topic r (Reply.grant_unroutable g.capsule_id)
    | some _ ↦
        auto_decision g.request_id Verb.approve
        ++ (Message.audit (codes "grant_auto_approved") g.capsule_id
            ∷ reply_with topic r (Reply.grant_auto_approve g.capsule_id))
  ]

  auto_deny_messages : Text → CallRequest Value → Text → GrantRequired → List (Message Value)
  unfolding auto_decision
  auto_deny_messages topic r principal g = elim (response_topic g.request_id) [
    | none ↦ reply_with topic r (Reply.grant_auto_deny g.capsule_id principal)
    | some _ ↦
        auto_decision g.request_id Verb.deny
        ++ (Message.audit (codes "grant_auto_denied") g.capsule_id
            ∷ reply_with topic r (Reply.grant_auto_deny g.capsule_id principal))
  ]

  -- The prompt, unless one is pending for the capsule.
  prompt_outcome : Text → CallRequest Value → GrantRequired → Kv → Outcome Value
  prompt_outcome topic r g kv =
      let (pending, kv') = grant_pending h.faults h.wall_ms g.capsule_id kv in
      if pending then (kv', reply_with topic r Reply.grant_dedup) else (
        mark_grant_pending h.faults h.wall_ms g.capsule_id kv',
        reply_with topic r (Reply.grant_flag g r.name r.req_id),
      )

  grant_outcome : Text → CallRequest Value → Text → GrantRequired → Kv → Outcome Value
  unfolding auto_approve_messages auto_deny_messages prompt_outcome
  grant_outcome topic r principal g kv =
      elim (grant_action (recorded_grant_decision h.faults g.capsule_id kv)) [
        | auto_approve ↦ (kv, auto_approve_messages topic r g)
        | auto_deny ↦ (kv, auto_deny_messages topic r principal g)
        | prompt ↦ prompt_outcome topic r g kv
      ]

  dispatched : Text → CallRequest Value → Text → DispatchOutcome Value → Kv → Outcome Value
  unfolding grant_outcome
  dispatched topic r principal (DispatchOutcome.result content e) kv =
      (kv, reply_with topic r (Reply.result content e))
  dispatched topic r principal (DispatchOutcome.approval_required a) kv =
      (kv, reply_with topic r (Reply.approval_flag a r.name r.req_id))
  dispatched topic r principal (DispatchOutcome.grant_required g) kv =
      grant_outcome topic r principal g kv
  dispatched topic r principal DispatchOutcome.failed kv = (kv, reply_with topic r (Reply.error []))

  -- From the policy gate on, for a trusted ingress.
  trusted_call : Text → CallRequest Value → Text → Kv → Outcome Value
  unfolding dispatched
  trusted_call topic r principal kv = elim (evaluate h.json rules.rules r.name r.arguments) [
    | denied rule ↦ (
      kv,
      load_audit rules.audit
          ++ (Message.policy_audit (codes "policy_deny") r.name rule
              ∷ reply_with topic r (Reply.policy_denied rule)),
    )
    | allowed ↦
        let (sent, outcome) =
          dispatch_with_approval h.json h.envelopes r.name r.req_id r.arguments h.bus in
        let (kv', replies) = dispatched topic r principal outcome kv in
        (kv', load_audit rules.audit ++ (sent ++ replies))
  ]

  called_by : Text → CallRequest Value → Option Caller → Kv → Outcome Value
  unfolding trusted_call
  called_by topic r none kv = (kv, reply_with topic r Reply.no_caller)
  called_by topic r (some c) kv =
      if not (is_ingress_trusted h.faults c.source_id kv)
      then (
        mark_ingress_pending h.faults c.source_id kv,
        reply_with topic r (Reply.consent_required c.source_id r.name),
      )
      else trusted_call topic r c.principal kv

  call_on_topic : CallRequest Value → Option Text → Kv → Outcome Value
  unfolding called_by gate_messages
  call_on_topic r none kv = (kv, [])
  call_on_topic r (some topic) kv =
      if text_eq r.name pretooluse_gate_tool
      then (kv, gate_messages topic r)
      else called_by topic r h.caller kv

  unfoldable pub handle_mcp_call : Option (CallRequest Value) → Kv → Outcome Value
  unfolding call_on_topic
  handle_mcp_call none kv = (kv, [])
  handle_mcp_call (some r) kv = call_on_topic r (reply_topic r.req_id) kv
