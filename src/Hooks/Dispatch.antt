-- ===== src/Hooks/Dispatch.antt =====
-- The dispatch of a lifecycle event, `correlation_id`, `dispatch_hook` and the interceptors of
-- capsules/capsule-hook-bridge/src/lib.rs. `fuel` bounds the rounds of collection.
use unicity_aos.Base.{
  ℕ, ◌+◌, ◌-◌, ◌/◌, ◌%◌, ltb, Option, none, some, List, [], ◌∷◌, ◌++◌, codes, if◌then◌else◌,
}
use unicity_aos.Base.Text.{Text}
use unicity_aos.Base.Result.{Result, err}
use unicity_aos.Hooks.Mapping.{MergeSemantics, HookMapping, mapping_for_event}
use unicity_aos.Hooks.Merge.{HookResult, apply_merge}
use unicity_aos.Hooks.Bus.{SysError, Stop, Host, Message, Act, pure, try, ◌>>=◌, ◌>>◌, publish_json}
use unicity_aos.Hooks.Collect.{collect_responses}

abbrev pub hex_digit : ℕ → ℕ
hex_digit n = if ltb n 10 then n + b'0' else n - 10 + b'a'

-- Two hexadecimal digits for each byte.
unfoldable pub hex : List ℕ → Text
hex [] = []
hex (b ∷ bytes) = hex_digit (b / 16) ∷ hex_digit (b % 16) ∷ hex bytes

-- A loop that has not ended within its fuel is no result.
unfoldable pub finished : {A : Type 0} → Option (Result SysError A) → Act A
finished none log = (err Stop.unfinished, log)
finished (some r) log = try r log

unfoldable pub event_topic : Text → Text
event_topic hook = codes "hook.v1.event." ++ hook

unfoldable pub reply_topic : Text → Text → Text
reply_topic hook corr_id = codes "hook.v1.response." ++ (hook ++ (b'.' ∷ corr_id))

module _ {Value : Type 0} (host : Host Value) where
  unfoldable pub correlation_id : Act Text
  correlation_id = do bytes ← try host.random_bytes; pure (hex bytes)

  unfoldable pub request_message : Text → Text → Option Text → Message
  request_message hook payload corr_id =
      Message.request (event_topic hook)
        (record { hook = hook; payload = payload; correlation_id = corr_id })

  -- No reply is expected.
  unfoldable pub notify : Text → Value → Act (Option (HookResult Value))
  notify hook payload = do
    text ← try (host.to_string payload)
    publish_json host (request_message hook text none)
    pure none

  unfoldable pub ask : ℕ → Text → MergeSemantics → Value → Act (Option (HookResult Value))
  ask fuel hook merge payload = do
    corr_id ← correlation_id
    try (host.subscribe (reply_topic hook corr_id))
    text ← try (host.to_string payload)
    publish_json host (request_message hook text (some corr_id))
    responses ← finished (collect_responses host fuel)
    pure (some (apply_merge host.json merge responses))

  abbrev pub dispatch_mapped : ℕ → MergeSemantics → Text → Value → Act (Option (HookResult Value))
  dispatch_mapped fuel MergeSemantics.discard hook payload = notify hook payload
  dispatch_mapped fuel merge hook payload = ask fuel hook merge payload

  abbrev pub dispatch_found : ℕ → Option HookMapping → Value → Act (Option (HookResult Value))
  dispatch_found fuel none payload = pure none
  dispatch_found fuel (some m) payload = dispatch_mapped fuel m.merge m.hook_name payload

  unfoldable pub dispatch_hook : ℕ → Text → Value → Act (Option (HookResult Value))
  dispatch_hook fuel event_type payload = dispatch_found fuel (mapping_for_event event_type) payload

  -- An interceptor that answers with the merged result, and one that drops it.
  unfoldable pub handle_lifecycle : ℕ → Text → Value → Act (Option (HookResult Value))
  handle_lifecycle fuel event_type payload = dispatch_hook fuel event_type payload

  unfoldable pub observe_lifecycle : ℕ → Text → Value → Act Unit
  observe_lifecycle fuel event_type payload = do handle_lifecycle fuel event_type payload; pure tt
