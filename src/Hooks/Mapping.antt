-- ===== src/Hooks/Mapping.antt =====
-- Which event goes to which hook, with which merge: the tables of
-- capsules/capsule-hook-bridge/src/lib.rs.
use unicity_aos.Base.{Bool, true, false, Option, none, some, List, [], ◌∷◌, codes, if◌then◌else◌}
use unicity_aos.Base.Text.{Text, text_eq}

-- `MergeSemantics`; `None` is `discard` here.
pub data MergeSemantics : Type 0 where
  discard tool_call_before : MergeSemantics
  last_non_null : Text → MergeSemantics

pub record HookMapping : Type 0 where
  pub hook_name : Text
  pub merge : MergeSemantics

abbrev hook : Text → MergeSemantics → HookMapping
hook name merge = record { hook_name = name; merge = merge }

abbrev pub mappings : List (Text × HookMapping)
mappings =
    (
      codes "astrid.v1.lifecycle.session_created",
      hook (codes "session_start") MergeSemantics.discard,
    )
    ∷ (codes "astrid.v1.lifecycle.session_ended", hook (codes "session_end") MergeSemantics.discard)
    ∷ (
      codes "astrid.v1.lifecycle.tool_call_started",
      hook (codes "before_tool_call") MergeSemantics.tool_call_before,
    )
    ∷ (
      codes "astrid.v1.lifecycle.tool_call_completed",
      hook (codes "after_tool_call") (MergeSemantics.last_non_null (codes "modified_result")),
    )
    ∷ (
      codes "astrid.v1.lifecycle.tool_result_persisting",
      hook (codes "tool_result_persist")
          (MergeSemantics.last_non_null (codes "transformed_result")),
    )
    ∷ (
      codes "astrid.v1.lifecycle.message_received",
      hook (codes "message_received") MergeSemantics.discard,
    )
    ∷ (
      codes "astrid.v1.lifecycle.message_sending",
      hook (codes "message_sending") (MergeSemantics.last_non_null (codes "modified_content")),
    )
    ∷ (codes "astrid.v1.lifecycle.message_sent", hook (codes "message_sent") MergeSemantics.discard)
    ∷ (
      codes "astrid.v1.lifecycle.sub_agent_spawned",
      hook (codes "subagent_start") MergeSemantics.discard,
    )
    ∷ (
      codes "astrid.v1.lifecycle.sub_agent_completed",
      hook (codes "subagent_stop") MergeSemantics.discard,
    )
    ∷ (
      codes "astrid.v1.lifecycle.sub_agent_failed",
      hook (codes "subagent_stop") MergeSemantics.discard,
    )
    ∷ (
      codes "astrid.v1.lifecycle.sub_agent_cancelled",
      hook (codes "subagent_stop") MergeSemantics.discard,
    )
    ∷ (
      codes "astrid.v1.lifecycle.context_compaction_started",
      hook (codes "on_compaction_started") MergeSemantics.discard,
    )
    ∷ (
      codes "astrid.v1.lifecycle.context_compaction_completed",
      hook (codes "on_compaction_completed") MergeSemantics.discard,
    )
    ∷ (
      codes "astrid.v1.lifecycle.kernel_started",
      hook (codes "kernel_start") MergeSemantics.discard,
    )
    ∷ (
      codes "astrid.v1.lifecycle.kernel_shutdown",
      hook (codes "kernel_stop") MergeSemantics.discard,
    )
    ∷ []

-- The arm of a `match` on texts.
unfoldable pub arm : {A : Type 0} → Text → List (Text × A) → Option A
arm s [] = none
arm s ((t, a) ∷ arms) = if text_eq s t then some a else arm s arms

unfoldable pub mapping_for_event : Text → Option HookMapping
mapping_for_event event_type = arm event_type mappings

-- The hook of a host's event, and whether its reply carries context.
abbrev pub host_events : List (Text × (Text × Bool))
host_events =
    (codes "session_start", (codes "session_start", false))
    ∷ (codes "user_prompt_submit", (codes "message_received", true))
    ∷ (codes "pre_tool_use", (codes "before_tool_call", false))
    ∷ (codes "permission_request", (codes "before_tool_call", false))
    ∷ (codes "post_tool_use", (codes "after_tool_call", false))
    ∷ (codes "pre_compact", (codes "on_compaction_started", false))
    ∷ (codes "post_compact", (codes "on_compaction_completed", false))
    ∷ (codes "subagent_start", (codes "subagent_start", false))
    ∷ (codes "subagent_stop", (codes "subagent_stop", false))
    ∷ (codes "stop", (codes "session_end", false))
    ∷ (codes "session_end", (codes "session_end", false))
    ∷ []

unfoldable pub canonical_hook_for_host_event : Text → Option (Text × Bool)
canonical_hook_for_host_event event = arm event host_events
