-- ===== src/Broker/Respond.antt =====
-- The handlers of the user's answers: `handle_mcp_ingress_respond` and `handle_mcp_grant_respond` of
-- crates/aos-mcp-broker/src/approval.rs. A request is `none` where its payload does not parse, the
-- caller is `none` where the host has no caller context.
pub mod Verbs
pub mod Ingress
pub mod Grant
pub mod Accept
use unicity_aos.Base.{
  ℕ, Bool, true, false, List, [], ◌∷◌, ◌++◌, Option, none, some, if◌then◌else◌, codes, not,
}
use unicity_aos.Base.Text.{Text}
use unicity_aos.Broker.Kv.{Kv, Faults, set_bytes}
use unicity_aos.Broker.Topics.{reply_topic, response_topic}
use unicity_aos.Broker.Consent.{
  GrantDecision, ingress_trust_key, mark_value, take_ingress_pending, is_ingress_trusted,
  take_grant_pending, respond_decision_to_record, record_grant_decision,
}
use unicity_aos.Broker.Messages.{
  Verb, normalize_decision, is_approve_verb, Message, decision, ingress_ack, grant_ack, audit,
  on_topic,
}

pub record IngressRespond : Type 0 where
  pub req_id : Text
  pub accept : Bool

pub record GrantRespond : Type 0 where
  pub req_id : Text
  pub request_id : Text
  pub decision : Text
  pub capsule_id : Text

pub record Caller : Type 0 where
  pub source_id : Text
  pub principal : Text

-- The store after a handler, and what it published.
abbrev pub Outcome : Type 0 → Type 0
Outcome Value = Kv × List (Message Value)

abbrev clear_grant_marker : Faults → Text → Kv → Kv
clear_grant_marker f capsule_id kv = (take_grant_pending f capsule_id kv).1

record_respond : Faults → Text → Option GrantDecision → Kv → Kv
record_respond f capsule_id none kv = kv
record_respond f capsule_id (some d) kv = record_grant_decision f capsule_id d kv

module _ {Value : Type 0} where
  abbrev ack_ingress : IngressRespond → Bool → List (Message Value)
  ack_ingress r granted =
      on_topic (reply_topic r.req_id) (λ topic. ingress_ack topic r.req_id granted)

  -- The write of the trust key.
  record_trust : Faults → IngressRespond → Text → Option Text → Kv → Outcome Value
  record_trust f r source_id none kv = (kv, ack_ingress r false)
  record_trust f r source_id (some key) kv =
      if f.set_fails key then (kv, ack_ingress r false) else (
        set_bytes f key mark_value kv,
        audit (codes "ingress_trusted") source_id ∷ ack_ingress r true,
      )

  -- After the prompt's marker was consumed: `had_prompt` says whether there was one.
  answer_ingress : Faults → IngressRespond → Text → Bool → Kv → Outcome Value
  unfolding record_trust
  answer_ingress f r source_id had_prompt kv =
      if r.accept
      then if not had_prompt
        then (kv, ack_ingress r false)
        else record_trust f r source_id (ingress_trust_key source_id) kv
      else (kv, ack_ingress r false)

  unfoldable pub handle_mcp_ingress_respond :
      Faults → Option Caller → Option IngressRespond → Kv → Outcome Value
  unfolding answer_ingress
  handle_mcp_ingress_respond f caller none kv = (kv, [])
  handle_mcp_ingress_respond f none (some r) kv = (kv, ack_ingress r false)
  handle_mcp_ingress_respond f (some c) (some r) kv =
      let (had_prompt, kv') = take_ingress_pending f c.source_id kv in
      answer_ingress f r c.source_id had_prompt kv'

  abbrev pub ack_grant : GrantRespond → Bool → List (Message Value)
  ack_grant r granted = on_topic (reply_topic r.req_id) (λ topic. grant_ack topic r.req_id granted)

  -- The refusal of a respond that may not decide.
  refuse_grant : Faults → GrantRespond → Text → Kv → Outcome Value
  refuse_grant f r topic kv = (
    clear_grant_marker f r.capsule_id kv,
    decision topic r.request_id Verb.deny none ∷ ack_grant r false,
  )

  decide_grant : Faults → GrantRespond → Text → Verb → Kv → Outcome Value
  unfolding record_respond
  decide_grant f r topic verb kv =
      let granted = is_approve_verb verb in
      let kv' = record_respond f r.capsule_id (respond_decision_to_record granted) kv in
      (
        clear_grant_marker f r.capsule_id kv',
        decision topic r.request_id verb none ∷ ack_grant r granted,
      )

  grant_on_topic : Faults → Option Caller → GrantRespond → Option Text → Kv → Outcome Value
  unfolding refuse_grant decide_grant
  grant_on_topic f caller r none kv = (clear_grant_marker f r.capsule_id kv, ack_grant r false)
  grant_on_topic f none r (some topic) kv = refuse_grant f r topic kv
  grant_on_topic f (some c) r (some topic) kv =
      if not (is_ingress_trusted f c.source_id kv)
      then refuse_grant f r topic kv
      else decide_grant f r topic (normalize_decision r.decision) kv

  unfoldable pub handle_mcp_grant_respond :
      Faults → Option Caller → Option GrantRespond → Kv → Outcome Value
  unfolding grant_on_topic
  handle_mcp_grant_respond f caller none kv = (kv, [])
  handle_mcp_grant_respond f caller (some r) kv =
      grant_on_topic f caller r (response_topic r.request_id) kv
