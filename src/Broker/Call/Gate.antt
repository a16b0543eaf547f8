-- ===== src/Broker/Call/Gate.antt =====
-- About the native-tool gate of `handle_mcp_call` (crates/aos-mcp-broker/src/broker.rs).
use unicity_aos.Base.{◌≡◌, refl, [], ◌∷◌, ◌++◌, some, true, codes}
use unicity_aos.Base.Text.{Text, text_eq}
use unicity_aos.Broker.Kv.{Kv}
use unicity_aos.Broker.Topics.{reply_topic}
use unicity_aos.Broker.Policy.{evaluate, allowed, denied}
use unicity_aos.Broker.Messages.{Message, Reply}
use unicity_aos.Broker.Dispatch.{get_str}
use unicity_aos.Broker.Call.{
  Host, CallRequest, rules, pretooluse_gate_tool, handle_mcp_call, call_on_topic, gate_messages,
  gate_audit, gate_reply_body, load_audit, gate_tool_input, or_empty,
}

-- A call of the gate tool: no check of its caller, no change to the store.
pub handle_mcp_call_gate :
    {Value : Type 0} (h : Host Value) (r : CallRequest Value) (t : Text) (kv : Kv)
    → text_eq r.name pretooluse_gate_tool ≡ true
    → reply_topic r.req_id ≡ some t
    → (let tool = or_empty (get_str h.json r.arguments (codes "tool_name")) in
        let decision = evaluate h.json (rules h).rules tool (gate_tool_input h r.arguments) in
        handle_mcp_call h (some r) kv ≡ (
          kv,
          load_audit (rules h).audit
              ++ (gate_audit h tool decision
                  ++ (Message.call_reply t r.req_id (Reply.gate_reply (gate_reply_body h decision))
                      ∷ [])),
        ))
unfolding handle_mcp_call call_on_topic gate_messages
handle_mcp_call_gate h r t kv g a = rw (a, g) refl

-- The audit of a denial, and none of an allowance.
pub gate_audit_denied :
    {Value : Type 0} (h : Host Value) (tool rule : Text)
    → gate_audit h tool (denied rule)
      ≡ Message.policy_audit (codes "pretooluse_deny") tool rule ∷ []
unfolding gate_audit
gate_audit_denied h tool rule = refl

pub gate_audit_allowed :
    {Value : Type 0} (h : Host Value) (tool : Text) → gate_audit h tool allowed ≡ []
unfolding gate_audit
gate_audit_allowed h tool = refl
