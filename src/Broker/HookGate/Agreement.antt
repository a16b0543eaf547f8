-- ===== src/Broker/HookGate/Agreement.antt =====
-- About the two gates for native tools, the gate tool of `handle_mcp_call` and
-- `handle_before_tool_call` (crates/aos-mcp-broker/src/broker.rs and hook_gate.rs).
use unicity_aos.Base.{◌≡◌, refl, sym, none, false, List, [], ◌∷◌, ◌++◌, some, true, codes}
use unicity_aos.Base.Text.{Text, text_eq}
use unicity_aos.Broker.Kv.{Kv}
use unicity_aos.Broker.Topics.{reply_topic, hook_reply_topic}
use unicity_aos.Broker.Policy.{Decision, allowed, denied, evaluate}
use unicity_aos.Broker.Policy.Verdict.{Verdict, evaluate-Verdict}
use unicity_aos.Broker.Messages.{Message, Reply, GateOutput, HookVerdict}
use unicity_aos.Broker.Dispatch.{get_str}
use unicity_aos.Broker.Call.{
  Host, CallRequest, rules, pretooluse_gate_tool, handle_mcp_call, gate_audit, gate_reply_body,
  load_audit, gate_tool_input, or_empty,
}
use unicity_aos.Broker.Call.Gate.{handle_mcp_call_gate, gate_audit_denied, gate_audit_allowed}
use unicity_aos.Broker.HookGate.{
  BeforeToolCallEvent, handle_before_tool_call, answer_to, answer_at, verdict, verdict_body,
  verdict_audit,
}

module _ {Value : Type 0} (h : Host Value) where
  -- The tool and the input that the arguments name.
  abbrev tool_of : Value → Text
  tool_of arguments = or_empty (get_str h.json arguments (codes "tool_name"))

  -- The two gates deny by the same rule, with one audit of it, or neither objects.
  pub data InStep (arguments : Value) (audits : List (Message Value)) (output : GateOutput)
      (reply : HookVerdict) : Type 0 where
    both_deny :
        (rule : Text)
        → Verdict h.json
            (tool_of arguments)
            (gate_tool_input h arguments)
            (rules h).rules
            (denied rule)
        → audits ≡ Message.policy_audit (codes "pretooluse_deny") (tool_of arguments) rule ∷ []
        → output
          ≡ GateOutput.hook_specific_output
              (codes "PreToolUse")
              (codes "deny")
              (codes "denied by Astrid policy (rule: " ++ (rule ++ codes ")"))
        → reply ≡ record { skip = true; reason = some rule }
        → InStep arguments audits output reply
    both_defer :
        Verdict h.json (tool_of arguments) (gate_tool_input h arguments) (rules h).rules allowed
        → audits ≡ []
        → output ≡ GateOutput.continue true
        → reply ≡ record { skip = false; reason = none }
        → InStep arguments audits output reply

  decided-InStep :
      (arguments : Value) (d : Decision)
      → Verdict h.json (tool_of arguments) (gate_tool_input h arguments) (rules h).rules d
      → InStep arguments
          (gate_audit h (tool_of arguments) d)
          (gate_reply_body h d)
          (verdict_body h d)
  unfolding gate_reply_body verdict_body
  decided-InStep arguments (denied rule) v = both_deny rule v (gate_audit_denied h _ rule) refl refl
  decided-InStep arguments allowed v = both_defer v (gate_audit_allowed h _) refl refl

  same_audit : (tool : Text) (d : Decision) → verdict_audit h tool d ≡ gate_audit h tool d
  unfolding verdict_audit
  same_audit tool (denied rule) = sym (gate_audit_denied h tool rule)
  same_audit tool allowed = sym (gate_audit_allowed h tool)

  -- On routable ids, the gate tool and the hook send the same audits and then, each on its own topic,
  -- their reply, whoever the caller is, and the store stays as it is: where the first rule that fires
  -- for the tool and its input denies, both deny with that rule's id, after an audit of it; else the
  -- gate says to continue and the hook says not to skip.
  pub gates_agree :
      (r : CallRequest Value) (event : BeforeToolCallEvent Value) (id t u : Text) (kv : Kv)
      → text_eq r.name pretooluse_gate_tool ≡ true
      → event.payload ≡ r.arguments
      → event.correlation_id ≡ some id
      → reply_topic r.req_id ≡ some t
      → hook_reply_topic id ≡ some u
      → (audits : List (Message Value)) × (output : GateOutput) × (reply : HookVerdict)
        × (handle_mcp_call h (some r) kv ≡ (
          kv,
          load_audit (rules h).audit
              ++ (audits ++ (Message.call_reply t r.req_id (Reply.gate_reply output) ∷ [])),
        ))
        × (handle_before_tool_call h (some event)
            ≡ load_audit (rules h).audit ++ (audits ++ (Message.hook_reply u reply ∷ [])))
        × InStep r.arguments audits output reply
  unfolding handle_before_tool_call answer_to answer_at verdict
  gates_agree r event id t u kv g p c a b =
      let tool = tool_of r.arguments in
      let d = evaluate h.json (rules h).rules tool (gate_tool_input h r.arguments) in
      (
        gate_audit h tool d,
        gate_reply_body h d,
        verdict_body h d,
        handle_mcp_call_gate h r t kv g a,
        rw (p, c, b, same_audit tool d) refl,
        decided-InStep r.arguments d (evaluate-Verdict h.json tool _ (rules h).rules),
      )
