-- ===== src/Broker/Messages.antt =====
-- What the broker publishes on the bus (crates/aos-mcp-broker/src/approval.rs, broker.rs and
-- grant_decision.rs). A message names its topic first; texts for people are left out of the replies.
use unicity_aos.Base.{
  ℕ, Bool, true, false, List, [], ◌∷◌, length, Option, none, some, leb, take, if◌then◌else◌, codes,
}
use unicity_aos.Base.Text.{Text, text_eq, trim, to_ascii_lowercase, is_empty}

-- The decision verbs that the host knows.
pub data Verb : Type 0 where
  approve approve_session approve_always deny : Verb

unfoldable pub normalize_decision : Text → Verb
normalize_decision decision =
    let s = to_ascii_lowercase (trim decision) in
    if text_eq s (codes "approve")
    then approve
    else if text_eq s (codes "approve_session")
    then approve_session
    else if text_eq s (codes "approve_always")
    then approve_always
    else deny

unfoldable pub is_approve_verb : Verb → Bool
is_approve_verb deny = false
is_approve_verb _ = true

abbrev pub max_display_len : ℕ
max_display_len = 1024

unfoldable pub clamp : Text → Text
clamp s =
    let trimmed = trim s in
    if leb (length trimmed) max_display_len then trimmed else take max_display_len trimmed

pub record ApprovalRequired : Type 0 where
  pub request_id : Text
  pub action : Text
  pub resource : Text
  pub reason : Text

pub record GrantRequired : Type 0 where
  pub request_id : Text
  pub principal : Text
  pub capsule_id : Text

-- What the hook of Claude reads of the gate tool's content.
pub data GateOutput : Type 0 where
  hook_specific_output :
      (hook_event_name permission_decision permission_decision_reason : Text) → GateOutput
  continue : Bool → GateOutput

-- The reply to a hook that runs before a native tool.
pub record HookVerdict : Type 0 where
  pub skip : Bool
  pub reason : Option Text

-- The bodies of `tool.call` replies.
pub data Reply (Value : Type 0) : Type 0 where
  gate_reply : GateOutput → Reply Value
  no_caller : Reply Value
  consent_required : (source_id tool_name : Text) → Reply Value
  policy_denied : (rule : Text) → Reply Value
  result : Value → (is_error : Bool) → Reply Value
  approval_flag : ApprovalRequired → (tool_name call_id : Text) → Reply Value
  grant_flag : GrantRequired → (tool_name call_id : Text) → Reply Value
  grant_dedup : Reply Value
  grant_auto_approve grant_unroutable : (capsule_id : Text) → Reply Value
  grant_auto_deny : (capsule_id principal : Text) → Reply Value
  error : (message : Text) → Reply Value

pub data Message (Value : Type 0) : Type 0 where
  decision : (topic request_id : Text) → Verb → (reason : Option Text) → Message Value
  ingress_ack grant_ack : (topic req_id : Text) → (granted : Bool) → Message Value
  call_reply : (topic req_id : Text) → Reply Value → Message Value
  audit : (event detail : Text) → Message Value
  policy_audit : (event tool rule : Text) → Message Value
  execute : (topic call_id tool_name : Text) → (arguments : Value) → Message Value
  hook_reply : (topic : Text) → HookVerdict → Message Value

-- `isError` of a reply. The gate's reply never sets it.
unfoldable pub is_error : {Value : Type 0} → Reply Value → Bool
is_error no_caller = true
is_error (policy_denied rule) = true
is_error (result v e) = e
is_error (grant_unroutable c) = true
is_error (grant_auto_deny c p) = true
is_error (error m) = true
is_error _ = false

-- The reason of a published decision: clamped, and left out where that is empty.
unfoldable pub shown_reason : Option Text → Option Text
shown_reason none = none
shown_reason (some r) = let clamped = clamp r in if is_empty clamped then none else some clamped

-- A message that needs a topic, if there is one.
abbrev pub on_topic : {Value : Type 0} → Option Text → (Text → Message Value) → List (Message Value)
on_topic none m = []
on_topic (some topic) m = m topic ∷ []
