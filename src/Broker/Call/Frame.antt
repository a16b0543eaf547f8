-- ===== src/Broker/Call/Frame.antt =====
-- About the keys of the store that `handle_mcp_call` (crates/aos-mcp-broker/src/broker.rs) writes.
use unicity_aos.Base.{◌≡◌, refl, ◌∙◌, Option, none, some, ◌⊎◌, inl, inr, Bool-cases}
use unicity_aos.Base.Text.{Text, text_eq, key_cases}
use unicity_aos.Broker.Kv.{Kv}
use unicity_aos.Broker.Topics.{reply_topic}
use unicity_aos.Broker.Policy.{Decision, allowed, denied, evaluate}
use unicity_aos.Broker.Consent.{
  GrantAction, auto_approve, auto_deny, prompt, grant_action, recorded_grant_decision,
  grant_pending, grant_pending_key, ingress_pending_key, is_ingress_trusted,
}
use unicity_aos.Broker.Consent.Frame.{
  mark_ingress_pending_ne, mark_grant_pending_ne, grant_pending_ne,
}
use unicity_aos.Broker.Messages.{GrantRequired}
use unicity_aos.Broker.Dispatch.{DispatchOutcome}
use unicity_aos.Broker.Respond.{Caller}
use unicity_aos.Broker.Call.{
  CallRequest, Host, rules, pretooluse_gate_tool, handle_mcp_call, call_on_topic, called_by,
  trusted_call, dispatched, grant_outcome, prompt_outcome,
}

module _ {Value : Type 0} (h : Host Value) (k : Text) (kv : Kv) where
  -- The store at the key is as before, or the key is a marker that the call may write.
  abbrev pub Written : Kv → Type 0
  Written kv' =
      (kv' k ≡ kv k)
      ⊎ ((c : Caller) × (h.caller ≡ some c) × (ingress_pending_key c.source_id ≡ some k))
      ⊎ ((capsule_id : Text) × (grant_pending_key capsule_id ≡ some k))

  prompt-Written :
      (topic : Text) (r : CallRequest Value) (g : GrantRequired)
      → Written (prompt_outcome h topic r g kv).0
  unfolding prompt_outcome
  prompt-Written topic r g = elim (key_cases (grant_pending_key g.capsule_id) k) [
    | inl e ↦ inr (inr (g.capsule_id, e))
    | inr n ↦
        let peeked = grant_pending_ne h.faults k kv h.wall_ms g.capsule_id n in
        elim (Bool-cases (grant_pending h.faults h.wall_ms g.capsule_id kv).0) [
          | inl p ↦ rw (p, prompt_outcome) (inl peeked)
          | inr p ↦
              rw (p, prompt_outcome)
                (inl (
                  mark_grant_pending_ne h.faults k
                    (grant_pending h.faults h.wall_ms g.capsule_id kv).1 h.wall_ms g.capsule_id n
                  ∙ peeked))
        ]
  ]

  grant-Written :
      (topic p : Text) (r : CallRequest Value) (g : GrantRequired)
      → Written (grant_outcome h topic r p g kv).0
  unfolding grant_outcome
  grant-Written topic p r g =
      go (grant_action (recorded_grant_decision h.faults g.capsule_id kv)) refl
    where
      go :
          (a : GrantAction)
          → grant_action (recorded_grant_decision h.faults g.capsule_id kv) ≡ a
          → Written (grant_outcome h topic r p g kv).0
      go auto_approve e = rw (e, grant_outcome) (inl refl)
      go auto_deny e = rw (e, grant_outcome) (inl refl)
      go prompt e = rw (e, grant_outcome) (prompt-Written topic r g)

  dispatched-Written :
      (topic p : Text) (r : CallRequest Value) (o : DispatchOutcome Value)
      → Written (dispatched h topic r p o kv).0
  unfolding dispatched
  dispatched-Written topic p r (DispatchOutcome.result v e) = inl refl
  dispatched-Written topic p r (DispatchOutcome.approval_required a) = inl refl
  dispatched-Written topic p r (DispatchOutcome.grant_required g) = grant-Written topic p r g
  dispatched-Written topic p r DispatchOutcome.failed = inl refl

  trusted-Written :
      (topic p : Text) (r : CallRequest Value) → Written (trusted_call h topic r p kv).0
  unfolding trusted_call
  trusted-Written topic p r = go (evaluate h.json (rules h).rules r.name r.arguments) refl
    where
      go :
          (d : Decision)
          → evaluate h.json (rules h).rules r.name r.arguments ≡ d
          → Written (trusted_call h topic r p kv).0
      go (denied rule) q = rw (q, trusted_call) (inl refl)
      go allowed q = rw (q, trusted_call) (dispatched-Written topic p r _)

  called-Written :
      (topic : Text) (r : CallRequest Value) (o : Option Caller)
      → h.caller ≡ o
      → Written (called_by h topic r o kv).0
  unfolding called_by
  called-Written topic r none e = inl refl
  called-Written topic r (some c) e =
      elim (Bool-cases (is_ingress_trusted h.faults c.source_id kv)) [
        | inl t ↦ rw (t, called_by) (trusted-Written topic c.principal r)
        | inr t ↦
            rw (t, called_by)
              (elim (key_cases (ingress_pending_key c.source_id) k) [
                | inl q ↦ inr (inl (c, e, q))
                | inr n ↦ inl (mark_ingress_pending_ne h.faults k kv c.source_id n)
              ])
      ]

  on_call-Written : (r : CallRequest Value) (o : Option Text) → Written (call_on_topic h r o kv).0
  unfolding call_on_topic
  on_call-Written r none = inl refl
  on_call-Written r (some topic) = elim (Bool-cases (text_eq r.name pretooluse_gate_tool)) [
    | inl g ↦ rw (g, call_on_topic) (inl refl)
    | inr g ↦ rw (g, call_on_topic) (called-Written topic r h.caller refl)
  ]

  pub handle_mcp_call-Written :
      (req : Option (CallRequest Value)) → Written (handle_mcp_call h req kv).0
  unfolding handle_mcp_call
  handle_mcp_call-Written none = inl refl
  handle_mcp_call-Written (some r) = on_call-Written r (reply_topic r.req_id)
