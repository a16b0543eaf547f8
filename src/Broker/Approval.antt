-- ===== src/Broker/Approval.antt =====
-- `handle_mcp_approval`, `resolve_with_decision` and `drain_result` of
-- crates/aos-mcp-broker/src/approval.rs: the answer to a tool that is parked on an approval. A request
-- is `none` where its payload does not parse.
pub mod Decides
use unicity_aos.Base.{
  ℕ, Bool, true, false, not, List, [], ◌∷◌, ◌++◌, Option, none, some, if◌then◌else◌,
}
use unicity_aos.Base.Text.{Text}
use unicity_aos.Base.Json.{Json}
use unicity_aos.Broker.Kv.{Kv, Faults}
use unicity_aos.Broker.Slices.{drain}
use unicity_aos.Broker.Topics.{reply_topic, response_topic, is_valid_tool_name}
use unicity_aos.Broker.Consent.{is_ingress_trusted}
use unicity_aos.Broker.Messages.{
  Verb, Reply, Message, decision, call_reply, normalize_decision, shown_reason, on_topic,
}
use unicity_aos.Broker.Dispatch.{slice_result}
use unicity_aos.Broker.Respond.{Caller}

pub record ApprovalRespond : Type 0 where
  pub req_id : Text
  pub request_id : Text
  pub decision : Text
  pub tool_name : Text
  pub call_id : Text
  pub reason : Option Text

abbrev pub resume_timeout_ms : ℕ
resume_timeout_ms = 50_000

abbrev pub resume_slice_ms : ℕ
resume_slice_ms = 250

-- A round for each slice of the window, and one to end the loop.
abbrev pub resume_fuel : ℕ
resume_fuel = 201

-- The result topic: whether the subscription succeeds, and what each slice delivers.
pub record ResultBus : Type 0 where
  pub subscribes : Bool
  pub slices : ℕ → Option (List Text)

module _ {Value : Type 0} (json : Json Value) where
  abbrev pub Found : Type 0
  Found = Option (Value × Bool)

  -- What a slice returns from the loop, if it returns.
  unfoldable pub resumed_by : Found → Option Found
  resumed_by none = none
  resumed_by (some found) = some (some found)

  -- What the loop returned, or `None` after it.
  abbrev pub after_drain : Option Found → Found
  after_drain none = none
  after_drain (some found) = found

  drain_result : Text → ResultBus → Found
  unfolding resumed_by
  drain_result call_id bus =
      let round = λ (i : ℕ). resumed_by (slice_result json call_id (bus.slices i)) in
      after_drain (drain resume_slice_ms round none resume_fuel 0 resume_timeout_ms)

  -- The terminal reply: `deliver_result` or `deliver_error`.
  abbrev pub terminal : Found → Reply Value
  terminal none = Reply.error []
  terminal (some (content, is_error)) = Reply.result content is_error

  resumed : Text → ResultBus → Found
  unfolding drain_result
  resumed call_id bus = if bus.subscribes then drain_result call_id bus else none

  resolve_with_decision :
      ApprovalRespond → Text → Verb → Option Text → ResultBus → List (Message Value)
  unfolding resumed
  resolve_with_decision r topic verb reason bus =
      let reply =
        λ (body : Reply Value). on_topic (reply_topic r.req_id) (λ t. call_reply t r.req_id body) in
      decision topic r.request_id verb (shown_reason reason)
      ∷ (if not (is_valid_tool_name r.tool_name)
          then reply (Reply.error [])
          else reply (terminal (resumed r.call_id bus)))

  approval_on_topic :
      Faults → Kv → Option Caller → ApprovalRespond → ResultBus → Option Text → List (Message Value)
  unfolding resolve_with_decision
  approval_on_topic f kv caller r bus none =
      on_topic (reply_topic r.req_id) (λ t. call_reply t r.req_id (Reply.error []))
  approval_on_topic f kv none r bus (some topic) = resolve_with_decision r topic Verb.deny none bus
  approval_on_topic f kv (some c) r bus (some topic) =
      if not (is_ingress_trusted f c.source_id kv)
      then resolve_with_decision r topic Verb.deny none bus
      else resolve_with_decision r topic (normalize_decision r.decision) r.reason bus

  -- The store is read only.
  unfoldable pub handle_mcp_approval :
      Faults → Kv → Option Caller → Option ApprovalRespond → ResultBus → List (Message Value)
  unfolding approval_on_topic
  handle_mcp_approval f kv caller none bus = []
  handle_mcp_approval f kv caller (some r) bus =
      approval_on_topic f kv caller r bus (response_topic r.request_id)
