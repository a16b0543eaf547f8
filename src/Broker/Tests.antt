-- ===== src/Broker/Tests.antt =====
-- Tests and instances for the broker's handlers, over values that are texts.
use unicity_aos.Base.{
  Option, List, Bool, ◌++◌, ℕ, ◌+◌, ◌≤◌, ◌<◌, ◌≡◌, ◌≢◌, ◌↔◌, refl, true, [], ◌∷◌, All, none, some,
  arith, codes,
}
use unicity_aos.Base.Text.{Text, text_eq, is_empty, byte_len, trim}
use unicity_aos.Broker.Kv.{no_faults, get_bytes_opt, put}
use unicity_aos.Broker.Policy.{load_rules, evaluate}
use unicity_aos.Broker.Topics.{hook_reply_topic, reply_topic, response_topic, is_valid_tool_name}
use unicity_aos.Broker.Consent.{
  grant_pending_ttl_ms, mark_grant_pending, grant_pending, suffix_key, is_ingress_trusted,
}
use unicity_aos.Broker.Consent.Markers.{grant_window}
use unicity_aos.Broker.Messages.{on_topic, Message, GateOutput, HookVerdict, Reply, Verb}
use unicity_aos.Broker.Dispatch.{
  dispatch_with_approval, round_outcome, poll_signal, slice_result, first_result,
}
use unicity_aos.Broker.Dispatch.Outcomes.{Dispatched, dispatch_with_approval-Dispatched}
use unicity_aos.Broker.Slices.{drain}
use unicity_aos.Broker.Respond.Verbs.{Decides}
use unicity_aos.Broker.Respond.{handle_mcp_grant_respond}
use unicity_aos.Broker.Respond.Grant.{grant_respond_publishes}
use unicity_aos.Broker.Call.{pretooluse_gate_tool, rules, load_audit, CallRequest, handle_mcp_call}
use unicity_aos.Broker.Call.Guarded.{Licensed, handle_mcp_call-Licensed}
use unicity_aos.Broker.Call.Answered.{Answered, handle_mcp_call-Answered}
use unicity_aos.Broker.Approval.{ApprovalRespond, ResultBus, handle_mcp_approval}
use unicity_aos.Broker.Approval.Decides.{Decided, Ends, approval_publishes}
use unicity_aos.Broker.HookGate.{BeforeToolCallEvent, handle_before_tool_call}
use unicity_aos.Broker.HookGate.Agreement.{InStep, gates_agree}
use unicity_aos.Broker.Fixtures.{
  empty_kv, trusted_kv, text_json, no_envelopes, quiet_bus, claude, text_host, ls_call, approved,
}

grant_window_example :
    ((grant_pending no_faults 6000
        (codes "fs")
        (mark_grant_pending no_faults 5000 (codes "fs") empty_kv)).0
      ≡ true)
    ↔ ((◌≢◌ {A = ℕ} 5000 0) × (5000 ≤ 6000) × (6000 < 5000 + grant_pending_ttl_ms))
unfolding suffix_key
grant_window_example =
    grant_window no_faults 5000 6000 (codes "fs") (codes "mcp.grant.pending.fs") empty_kv refl refl
      refl (omega arith)

grant_respond_publishes_example :
    (v : Verb) × (granted : Bool) × ((handle_mcp_grant_respond {Value = Text} no_faults
        (some claude)
        (some approved)
        trusted_kv).1
      ≡ Message.decision (codes "astrid.v1.approval.response.g1") (codes "g1") v none
        ∷ on_topic
            (reply_topic (codes "r3"))
            (λ topic. Message.grant_ack topic (codes "r3") granted))
    × ((granted ≡ true) ↔ (v ≢ Verb.deny))
    × Decides no_faults trusted_kv (some claude) (codes "approve") v
unfolding response_topic is_empty byte_len
grant_respond_publishes_example =
    grant_respond_publishes Text no_faults (some claude) approved
      (codes "astrid.v1.approval.response.g1") trusted_kv refl

dispatch_with_approval-Dispatched_example :
    Dispatched text_json no_envelopes (codes "fs.list") (codes "r1") (codes ".") quiet_bus (
      dispatch_with_approval text_json no_envelopes
        (codes "fs.list")
        (codes "r1")
        (codes ".")
        quiet_bus)
dispatch_with_approval-Dispatched_example =
    dispatch_with_approval-Dispatched text_json no_envelopes (codes "fs.list") (codes "r1")
      (codes ".") quiet_bus

handle_mcp_call-Licensed_example :
    All
      (Licensed text_host ls_call trusted_kv)
      (handle_mcp_call text_host (some ls_call) trusted_kv).1
handle_mcp_call-Licensed_example = handle_mcp_call-Licensed text_host ls_call trusted_kv

-- A trusted call that the bus leaves without an answer: the tool is asked to run, and the reply is
-- an error.
call_test :
    (handle_mcp_call text_host (some ls_call) trusted_kv).1
    ≡ Message.execute (codes "tool.v1.execute.fs.list") (codes "r1") (codes "fs.list") (codes ".")
      ∷ Message.call_reply (codes "astrid.v1.response.r1") (codes "r1") (Reply.error [])
      ∷ []
unfolding handle_mcp_call reply_topic is_empty byte_len text_eq is_ingress_trusted suffix_key
    get_bytes_opt put dispatch_with_approval is_valid_tool_name load_rules evaluate drain
    round_outcome poll_signal slice_result first_result trim
call_test = refl

abbrev gate_call : CallRequest Text
gate_call = record { req_id = codes "r4"; name = pretooluse_gate_tool; arguments = codes "{}" }

abbrev gate_event : BeforeToolCallEvent Text
gate_event = record { payload = codes "{}"; correlation_id = some (codes "c1") }

gates_agree_example :
    (audits : List (Message Text)) × (output : GateOutput) × (reply : HookVerdict)
    × (handle_mcp_call text_host (some gate_call) empty_kv ≡ (
      empty_kv,
      load_audit (rules text_host).audit
          ++ (audits
              ++ (Message.call_reply
                    (codes "astrid.v1.response.r4")
                    (codes "r4")
                    (Reply.gate_reply output)
                  ∷ [])),
    ))
    × (handle_before_tool_call text_host (some gate_event)
        ≡ load_audit (rules text_host).audit
          ++ (audits
              ++ (Message.hook_reply (codes "hook.v1.response.before_tool_call.c1") reply ∷ [])))
    × InStep text_host (codes "{}") audits output reply
unfolding reply_topic hook_reply_topic is_empty byte_len text_eq
gates_agree_example =
    gates_agree text_host gate_call gate_event (codes "c1") (codes "astrid.v1.response.r4")
      (codes "hook.v1.response.before_tool_call.c1") empty_kv refl refl refl refl refl

abbrev parked : ApprovalRespond
parked = record {
  req_id = codes "r5";
  request_id = codes "a1";
  decision = codes "approve";
  tool_name = codes "fs.list";
  call_id = codes "r1";
  reason = none;
}

abbrev quiet_results : ResultBus
quiet_results = record { subscribes = true; slices = λ i. some [] }

approval_publishes_example :
    (v : Verb) × (reason : Option Text) × (body : Reply Text) × (handle_mcp_approval text_json
        no_faults trusted_kv
        (some claude)
        (some parked)
        quiet_results
      ≡ Message.decision (codes "astrid.v1.approval.response.a1") (codes "a1") v reason
        ∷ on_topic (reply_topic (codes "r5")) (λ topic. Message.call_reply topic (codes "r5") body))
    × Decided text_json no_faults trusted_kv parked quiet_results (some claude) v reason
    × Ends text_json no_faults trusted_kv parked quiet_results body
unfolding response_topic is_empty byte_len
approval_publishes_example =
    approval_publishes text_json no_faults trusted_kv parked quiet_results (some claude)
      (codes "astrid.v1.approval.response.a1") refl

handle_mcp_call-Answered_example :
    Answered
      (codes "astrid.v1.response.r1")
      (codes "r1")
      (handle_mcp_call text_host (some ls_call) trusted_kv).1
unfolding reply_topic is_empty byte_len
handle_mcp_call-Answered_example =
    handle_mcp_call-Answered text_host ls_call (codes "astrid.v1.response.r1") trusted_kv refl
