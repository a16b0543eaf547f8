-- ===== src/Broker/HookGate.antt =====
-- `handle_before_tool_call` and `verdict` of crates/aos-mcp-broker/src/hook_gate.rs: the responder to
-- the hook that runs before a native tool. An event is `none` where its payload does not parse.
pub mod Agreement
use unicity_aos.Base.{true, false, List, [], ◌∷◌, ◌++◌, Option, none, some, codes}
use unicity_aos.Base.Text.{Text}
use unicity_aos.Broker.Topics.{hook_reply_topic}
use unicity_aos.Broker.Policy.{Decision, allowed, denied, evaluate}
use unicity_aos.Broker.Messages.{Message, HookVerdict, hook_reply}
use unicity_aos.Broker.Dispatch.{get_str}
use unicity_aos.Broker.Call.{Host, rules, gate_tool_input, load_audit, or_empty}

pub record BeforeToolCallEvent (Value : Type 0) : Type 0 where
  pub payload : Value
  pub correlation_id : Option Text

module _ {Value : Type 0} (h : Host Value) where
  unfoldable pub verdict_audit : Text → Decision → List (Message Value)
  verdict_audit tool_name (denied reason) =
      Message.policy_audit (codes "pretooluse_deny") tool_name reason ∷ []
  verdict_audit tool_name allowed = []

  unfoldable pub verdict_body : Decision → HookVerdict
  verdict_body (denied reason) = record { skip = true; reason = some reason }
  verdict_body allowed = record { skip = false; reason = none }

  -- `verdict`, and the publication of its reply.
  verdict : Text → Text → Value → List (Message Value)
  verdict topic tool_name tool_input =
      let decision = evaluate h.json (rules h).rules tool_name tool_input in
      load_audit (rules h).audit
      ++ (verdict_audit tool_name decision ++ (hook_reply topic (verdict_body decision) ∷ []))

  answer_at : Value → Option Text → List (Message Value)
  unfolding verdict
  answer_at payload none = []
  answer_at payload (some topic) =
      verdict topic (or_empty (get_str h.json payload (codes "tool_name")))
        (gate_tool_input h payload)

  answer_to : Value → Option Text → List (Message Value)
  unfolding answer_at
  answer_to payload none = []
  answer_to payload (some correlation_id) = answer_at payload (hook_reply_topic correlation_id)

  unfoldable pub handle_before_tool_call : Option (BeforeToolCallEvent Value) → List (Message Value)
  unfolding answer_to
  handle_before_tool_call none = []
  handle_before_tool_call (some event) = answer_to event.payload event.correlation_id
