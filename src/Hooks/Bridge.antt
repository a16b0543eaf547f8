-- ===== src/Hooks/Bridge.antt =====
-- The interceptors of the hook bridge, `impl HookBridge` of capsules/capsule-hook-bridge/src/lib.rs.
pub mod Results
use unicity_aos.Base.{ℕ, Bool, true, false, Option, List, codes}
use unicity_aos.Base.Text.{Text}
use unicity_aos.Hooks.Merge.{HookResult}
use unicity_aos.Hooks.Bus.{Host, Act, pure, ◌>>=◌, ◌>>◌}
use unicity_aos.Hooks.Dispatch.{handle_lifecycle, observe_lifecycle}
use unicity_aos.Hooks.Oracle.{handle_oracle_hook}

-- The interceptors of lifecycle events.
pub data Lifecycle : Type 0 where
  on_session_created on_session_ended on_tool_call_started on_tool_call_completed
        on_tool_result_persisting :
      Lifecycle
  on_message_received on_message_sending on_message_sent on_subagent_spawned on_subagent_completed :
      Lifecycle
  on_subagent_failed on_subagent_cancelled on_compaction_started on_compaction_completed
        on_kernel_started on_kernel_shutdown :
      Lifecycle

-- The interceptors of host agents' hooks.
pub data HostHook : Type 0 where
  on_codex_hook on_claude_hook on_grok_hook : HostHook

pub data Interceptor : Type 0 where
  lifecycle : Lifecycle → Interceptor
  host_hook : HostHook → Interceptor

unfoldable pub event_of : Lifecycle → Text
event_of Lifecycle.on_session_created = codes "astrid.v1.lifecycle.session_created"
event_of Lifecycle.on_session_ended = codes "astrid.v1.lifecycle.session_ended"
event_of Lifecycle.on_tool_call_started = codes "astrid.v1.lifecycle.tool_call_started"
event_of Lifecycle.on_tool_call_completed = codes "astrid.v1.lifecycle.tool_call_completed"
event_of Lifecycle.on_tool_result_persisting = codes "astrid.v1.lifecycle.tool_result_persisting"
event_of Lifecycle.on_message_received = codes "astrid.v1.lifecycle.message_received"
event_of Lifecycle.on_message_sending = codes "astrid.v1.lifecycle.message_sending"
event_of Lifecycle.on_message_sent = codes "astrid.v1.lifecycle.message_sent"
event_of Lifecycle.on_subagent_spawned = codes "astrid.v1.lifecycle.sub_agent_spawned"
event_of Lifecycle.on_subagent_completed = codes "astrid.v1.lifecycle.sub_agent_completed"
event_of Lifecycle.on_subagent_failed = codes "astrid.v1.lifecycle.sub_agent_failed"
event_of Lifecycle.on_subagent_cancelled = codes "astrid.v1.lifecycle.sub_agent_cancelled"
event_of Lifecycle.on_compaction_started = codes "astrid.v1.lifecycle.context_compaction_started"
event_of Lifecycle.on_compaction_completed =
    codes "astrid.v1.lifecycle.context_compaction_completed"
event_of Lifecycle.on_kernel_started = codes "astrid.v1.lifecycle.kernel_started"
event_of Lifecycle.on_kernel_shutdown = codes "astrid.v1.lifecycle.kernel_shutdown"

-- Whether the interceptor drops the result, `let _ = …; Ok(())`.
unfoldable pub observes : Lifecycle → Bool
observes Lifecycle.on_tool_call_started = false
observes Lifecycle.on_tool_call_completed = false
observes Lifecycle.on_tool_result_persisting = false
observes Lifecycle.on_message_sending = false
observes _ = true

-- What an interceptor returns.
pub data Returned (Value : Type 0) : Type 0 where
  unit : Returned Value
  hook_result : Option (HookResult Value) → Returned Value

module _ {Value : Type 0} (host : Host Value) where
  abbrev pub lifecycle_result : Bool → ℕ → Text → Value → Act (Returned Value)
  lifecycle_result true fuel event payload = do observe_lifecycle host fuel event payload; pure unit
  lifecycle_result false fuel event payload = do
    result ← handle_lifecycle host fuel event payload
    pure (hook_result result)

  unfoldable pub intercept : ℕ → Interceptor → Value → Act (Returned Value)
  intercept fuel (Interceptor.lifecycle i) payload =
      lifecycle_result (observes i) fuel (event_of i) payload
  intercept fuel (Interceptor.host_hook i) payload = do
    handle_oracle_hook host fuel payload
    pure unit
