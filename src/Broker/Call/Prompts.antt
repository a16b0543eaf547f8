-- ===== src/Broker/Call/Prompts.antt =====
-- About a call whose ingress is not trusted (`handle_mcp_call`, crates/aos-mcp-broker/src/broker.rs).
use unicity_aos.Base.{◌≡◌, refl, false, [], ◌∷◌, some}
use unicity_aos.Base.Text.{Text, text_eq}
use unicity_aos.Broker.Kv.{Kv}
use unicity_aos.Broker.Topics.{reply_topic}
use unicity_aos.Broker.Consent.{mark_ingress_pending, is_ingress_trusted}
use unicity_aos.Broker.Messages.{Message, Reply}
use unicity_aos.Broker.Respond.{Caller}
use unicity_aos.Broker.Call.{
  CallRequest, Host, handle_mcp_call, call_on_topic, called_by, pretooluse_gate_tool,
}

-- A call by an ingress that is not trusted: its prompt's marker is written, the reply asks for
-- consent and nothing else is sent.
pub call_prompts :
    {Value : Type 0} (h : Host Value) (r : CallRequest Value) (c : Caller) (t : Text) (kv : Kv)
    → reply_topic r.req_id ≡ some t
    → text_eq r.name pretooluse_gate_tool ≡ false
    → h.caller ≡ some c
    → is_ingress_trusted h.faults c.source_id kv ≡ false
    → handle_mcp_call h (some r) kv ≡ (
      mark_ingress_pending h.faults c.source_id kv,
      Message.call_reply t r.req_id (Reply.consent_required c.source_id r.name) ∷ [],
    )
unfolding handle_mcp_call call_on_topic called_by
call_prompts h r c t kv a b d e = rw (a, b, d, e) refl
