-- ===== src/Hooks/Bridge/Results.antt =====
-- About which interceptors return a result (capsules/capsule-hook-bridge/src/lib.rs).
use unicity_aos.Base.{◌≡◌, refl, Bool, true, false, some}
use unicity_aos.Base.Text.{text_eq}
use unicity_aos.Hooks.Mapping.{MergeSemantics, HookMapping, mapping_for_event, arm}
use unicity_aos.Hooks.Bridge.{Lifecycle, event_of, observes}

-- The merge gives nothing that a caller could use.
unfoldable pub discards : MergeSemantics → Bool
discards MergeSemantics.discard = true
discards _ = false

-- Every lifecycle interceptor has a hook, and it drops the result exactly if the hook's merge
-- discards the responses: no merged result is lost.
pub observes-mapping_for_event :
    (i : Lifecycle)
    → (m : HookMapping) × (mapping_for_event (event_of i) ≡ some m)
      × (observes i ≡ discards m.merge)
unfolding observes discards mapping_for_event arm text_eq event_of
observes-mapping_for_event Lifecycle.on_session_created = (_, refl, refl)
observes-mapping_for_event Lifecycle.on_session_ended = (_, refl, refl)
observes-mapping_for_event Lifecycle.on_tool_call_started = (_, refl, refl)
observes-mapping_for_event Lifecycle.on_tool_call_completed = (_, refl, refl)
observes-mapping_for_event Lifecycle.on_tool_result_persisting = (_, refl, refl)
observes-mapping_for_event Lifecycle.on_message_received = (_, refl, refl)
observes-mapping_for_event Lifecycle.on_message_sending = (_, refl, refl)
observes-mapping_for_event Lifecycle.on_message_sent = (_, refl, refl)
observes-mapping_for_event Lifecycle.on_subagent_spawned = (_, refl, refl)
observes-mapping_for_event Lifecycle.on_subagent_completed = (_, refl, refl)
observes-mapping_for_event Lifecycle.on_subagent_failed = (_, refl, refl)
observes-mapping_for_event Lifecycle.on_subagent_cancelled = (_, refl, refl)
observes-mapping_for_event Lifecycle.on_compaction_started = (_, refl, refl)
observes-mapping_for_event Lifecycle.on_compaction_completed = (_, refl, refl)
observes-mapping_for_event Lifecycle.on_kernel_started = (_, refl, refl)
observes-mapping_for_event Lifecycle.on_kernel_shutdown = (_, refl, refl)
