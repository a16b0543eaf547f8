-- ===== src/Broker/History/Accept.antt =====
-- About a call and then an accept (crates/aos-mcp-broker/src/broker.rs and approval.rs).
use unicity_aos.Base.{◌≡◌, ◌≢◌, true, false, [], ◌∷◌, some}
use unicity_aos.Base.Text.{Text, text_eq}
use unicity_aos.Broker.Kv.{Kv, no_faults}
use unicity_aos.Broker.Topics.{reply_topic}
use unicity_aos.Broker.Consent.{trust_prefix, pending_prefix, is_ingress_trusted}
use unicity_aos.Broker.Consent.Keys.{suffix_key-some}
use unicity_aos.Broker.Respond.{Caller, IngressRespond}
use unicity_aos.Broker.Respond.Accept.{accept_trusts}
use unicity_aos.Broker.Call.{CallRequest, Host, pretooluse_gate_tool}
use unicity_aos.Broker.Call.Prompts.{call_prompts}
use unicity_aos.Broker.History.{call, ingress_respond, step, run}

-- Where the store answers, a call of an ingress that is named and not trusted, on a routable request
-- id and for a tool other than the gate, followed by an accept from it, makes the ingress trusted.
pub call_accept_trusts :
    (Value : Type 0) (h : Host Value) (r : CallRequest Value) (c : Caller) (q : IngressRespond)
    (t : Text) (kv : Kv)
    → reply_topic r.req_id ≡ some t
    → text_eq r.name pretooluse_gate_tool ≡ false
    → h.caller ≡ some c
    → h.faults ≡ no_faults
    → c.source_id ≢ []
    → is_ingress_trusted no_faults c.source_id kv ≡ false
    → q.accept ≡ true
    → is_ingress_trusted no_faults c.source_id
        (run (call h (some r) ∷ ingress_respond no_faults (some c) (some q) ∷ []) kv)
      ≡ true
unfolding run step
call_accept_trusts Value h r c q t kv a b d f n u e =
    let (tk, trust) = suffix_key-some trust_prefix c.source_id n in
    let (pk, pending) = suffix_key-some pending_prefix c.source_id n in
    let untrusted : is_ingress_trusted h.faults c.source_id kv ≡ false = rw f u in
    rw (run, step, call_prompts h r c t kv a b d untrusted, f)
      (accept_trusts Value c tk pk trust pending q kv e)
