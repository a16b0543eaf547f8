-- ===== src/Hooks/Tests.antt =====
-- Runs of the hook bridge on a host where every call succeeds: values are texts.
use unicity_aos.Base.{
  ℕ, zero, suc, ◌*◌, ◌≡◌, ◌≢◌, ◌≤◌, refl, true, none, some, [], ◌∷◌, codes, arith, All,
  if◌then◌else◌,
}
use unicity_aos.Base.Text.{Text, text_eq, byte_len, has_text, is_empty, is_ascii_alphanumeric, trim}
use unicity_aos.Base.Json.{Json, Shape, as_str}
use unicity_aos.Base.Result.{ok, err}
use unicity_aos.Hooks.Mapping.{
  MergeSemantics, HookMapping, mapping_for_event, canonical_hook_for_host_event, arm,
}
use unicity_aos.Hooks.Merge.{apply_merge}
use unicity_aos.Hooks.Merge.Laws.{IsMerged, apply_merge-IsMerged}
use unicity_aos.Hooks.Bus.{Stop, Host, OracleHookEvent, Received}
use unicity_aos.Hooks.Collect.{
  max_host_context_bytes, collect_additional_context, collect, as_elapsed, remaining, after_recv,
  add_all, add_context, push_context, join,
}
use unicity_aos.Hooks.Collect.Window.{collect_additional_context-le}
use unicity_aos.Hooks.Oracle.{
  validate_oracle_hook, handle_oracle_hook, reject_if, is_clean_segment, is_lower_hex,
}
use unicity_aos.Hooks.Oracle.Answered.{Answer, handle_oracle_hook-Answer}
use unicity_aos.Hooks.Oracle.Bound.{IsAllowed, handle_oracle_hook-All}
use unicity_aos.Hooks.Bridge.{Interceptor, Lifecycle, intercept, event_of, observes}
use unicity_aos.Hooks.Bridge.Results.{discards, observes-mapping_for_event}
use unicity_aos.Hooks.Termination.{intercept_ends}

-- A text is true if it is "true"; each of its members is the text itself.
abbrev echo_json : Json Text
echo_json = record {
  shape = λ s. if text_eq s (codes "true") then Shape.bool true else Shape.string s;
  pointer = λ s p. none;
  get = λ s p. some s;
  from_str = λ s. some s;
  null_value = [];
  string_value = λ s. s;
}

abbrev prompt_event : OracleHookEvent Text
prompt_event = record {
  schema_version = 1;
  principal_id = codes "default";
  host = codes "codex";
  session_id = codes "s1";
  event = codes "user_prompt_submit";
  correlation_id = codes "00112233445566778899aabbccddeeff";
  route_id = codes "0123456789abcdef0123456789abcdef0123456789abcdef0123456789abcdef";
  delivery_id =
      codes
        "0123456789abcdef0123456789abcdef0123456789abcdef0123456789abcdef-00112233445566778899aabbccddeeff";
  turn_id = none;
  workspace_id = some (codes "w1");
  payload = codes "hello";
}

-- One reply, and then none.
abbrev one_reply : ℕ → ℕ → Received
one_reply zero ms = ok (codes "note" ∷ [])
one_reply (suc i) ms = ok []

-- A second passes with every round.
abbrev calm_host : Host Text
calm_host = record {
  subscribe = λ topic. ok tt;
  publish = λ m. ok tt;
  recv = one_reply;
  elapsed_ms = λ i. i * 1000;
  random_bytes = ok (1 ∷ 254 ∷ []);
  caller = ok (some (codes "default"));
  json = echo_json;
  to_string = λ s. ok s;
  canonical_string = λ p. ok (codes "payload");
  from_value = λ s. some prompt_event;
  byte_size = λ s. some 7;
}

apply_merge-IsMerged_example :
    IsMerged echo_json MergeSemantics.tool_call_before
      (codes "true" ∷ codes "x" ∷ [])
      (apply_merge echo_json MergeSemantics.tool_call_before (codes "true" ∷ codes "x" ∷ []))
apply_merge-IsMerged_example =
    apply_merge-IsMerged echo_json MergeSemantics.tool_call_before (codes "true" ∷ codes "x" ∷ [])

prompt_event_valid : validate_oracle_hook calm_host prompt_event ≡ ok tt
unfolding validate_oracle_hook reject_if has_text text_eq canonical_hook_for_host_event arm
    is_clean_segment is_empty byte_len is_ascii_alphanumeric is_lower_hex
prompt_event_valid = refl

prompt_event_mapped :
    canonical_hook_for_host_event prompt_event.event ≡ some (codes "message_received", true)
unfolding canonical_hook_for_host_event arm text_eq
prompt_event_mapped = refl

context_collected : collect_additional_context calm_host 3 ≡ some (ok (some (codes "note")))
unfolding collect_additional_context collect as_elapsed remaining after_recv add_all add_context
    push_context join as_str text_eq byte_len is_empty trim
context_collected = refl

collect_additional_context-le_example : byte_len (codes "note") ≤ max_host_context_bytes
collect_additional_context-le_example =
    collect_additional_context-le calm_host 3 (codes "note") context_collected

handle_oracle_hook-All_example :
    All (IsAllowed calm_host (codes "p")) (handle_oracle_hook calm_host 3 (codes "p") []).1
handle_oracle_hook-All_example = handle_oracle_hook-All calm_host 3 (codes "p")

handle_oracle_hook-Answer_example :
    Answer calm_host 3 prompt_event
      (codes "message_received")
      true
      (handle_oracle_hook calm_host 3 (codes "p") [])
handle_oracle_hook-Answer_example =
    handle_oracle_hook-Answer calm_host 3 prompt_event (codes "message_received") true (codes "p")
      refl prompt_event_valid refl prompt_event_mapped

intercept_ends_example :
    (intercept calm_host 6 (Interceptor.lifecycle Lifecycle.on_tool_call_started) (codes "p") []).0
    ≢ err Stop.unfinished
intercept_ends_example =
    intercept_ends calm_host 5 6 (omega arith) (codes "p") (omega arith)
      (Interceptor.lifecycle Lifecycle.on_tool_call_started) []

observes-mapping_for_event_example :
    (m : HookMapping) × (mapping_for_event (event_of Lifecycle.on_message_sending) ≡ some m)
    × (observes Lifecycle.on_message_sending ≡ discards m.merge)
observes-mapping_for_event_example = observes-mapping_for_event Lifecycle.on_message_sending
