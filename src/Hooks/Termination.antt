-- ===== src/Hooks/Termination.antt =====
-- About the handlers of capsules/capsule-hook-bridge/src/lib.rs as a whole: their end.
use unicity_aos.Base.{
  ℕ, ◌≤◌, ◌<◌, ◌≢◌, refl, Bool, true, false, Option, none, some, List, [], arith,
}
use unicity_aos.Base.Text.{Text, opt_text_eq}
use unicity_aos.Base.Result.{Result, ok, err}
use unicity_aos.Hooks.Mapping.{MergeSemantics, HookMapping, mapping_for_event}
use unicity_aos.Hooks.Bus.{
  SysError, Stop, Host, Message, OracleHookEvent, Act, pure, try, continue, ◌>>=◌, publish_json,
  published,
}
use unicity_aos.Hooks.Collect.{
  is_nil, push_response, add_context, no_contexts, join_collected, collect_responses,
  collect_additional_context, hook_collect_deadline_ms, host_hook_collect_deadline_ms,
}
use unicity_aos.Hooks.Collect.Window.{collect_ends}
use unicity_aos.Hooks.Dispatch.{
  finished, correlation_id, notify, ask, dispatch_mapped, dispatch_found, dispatch_hook,
  handle_lifecycle, observe_lifecycle,
}
use unicity_aos.Hooks.Bridge.{Interceptor, intercept, lifecycle_result, observes, event_of}
use unicity_aos.Hooks.Oracle.{
  notify_host, ask_context, dispatch_canonical, dispatch_oracle_hook, response_message, serve_valid,
  serve_checked, serve_parsed, handle_oracle_hook,
}

-- The action ends within its fuel, with a value or an error.
record Ends {A : Type 0} (m : Act A) : Type 0 where
  pub at : (log : List Message) → (m log).0 ≢ err Stop.unfinished

pure-Ends : {A : Type 0} (a : A) → Ends (pure a)
unfolding pure
pure-Ends a = record { at = λ log e. cc e }

try-Ends : {A : Type 0} (r : Result SysError A) → Ends (try r)
unfolding try
try-Ends (ok a) = record { at = λ log e. cc e }
try-Ends (err x) = record { at = λ log e. cc e }

finished-Ends : {A : Type 0} (o : Option (Result SysError A)) → o ≢ none → Ends (finished o)
unfolding finished
finished-Ends none h = absurd (h refl)
finished-Ends (some r) h = record { at = (try-Ends r).at }

continue_lem :
    {A B : Type 0} (r : Result Stop A) (f : A → Act B) (log : List Message)
    → r ≢ err Stop.unfinished
    → ((a : A) → Ends (f a))
    → (continue r f log).0 ≢ err Stop.unfinished
continue_lem (ok a) f log h k = (k a).at log
continue_lem (err x) f log h k = λ e. h (cc e)

bind-Ends :
    {A B : Type 0} {m : Act A} {f : A → Act B} → Ends m → ((a : A) → Ends (f a)) → Ends (m >>= f)
unfolding ◌>>=◌
bind-Ends {m = m} {f = f} h k = record {
  at = λ log. continue_lem (m log).0 f (m log).1 (h.at log) k;
}

published_lem :
    (m : Message) (r : Result SysError (Unit {0})) (log : List Message)
    → (published m r log).0 ≢ err Stop.unfinished
published_lem m (ok tt) log e = cc e
published_lem m (err x) log e = cc e

publish_json-Ends : {Value : Type 0} (host : Host Value) (m : Message) → Ends (publish_json host m)
unfolding publish_json
publish_json-Ends host m = record { at = λ log. published_lem m (host.publish m) log }

ruleset ending = (pure-Ends, try-Ends, bind-Ends, publish_json-Ends)

module _ {Value : Type 0} (host : Host Value) (n fuel : ℕ) (enough : n < fuel) where
  collect_responses_ends :
      hook_collect_deadline_ms ≤ host.elapsed_ms n → collect_responses host fuel ≢ none
  unfolding collect_responses
  collect_responses_ends late =
      collect_ends host hook_collect_deadline_ms is_nil (push_response host) n late fuel 0 []
        (omega arith) (omega (arith, enough))

  collect_additional_context_ends :
      host_hook_collect_deadline_ms ≤ host.elapsed_ms n
      → collect_additional_context host fuel ≢ none
  unfolding collect_additional_context
  collect_additional_context_ends late = joined_ends _ (
      collect_ends host host_hook_collect_deadline_ms (λ s. is_nil s.contexts) (add_context host) n
        late fuel 0 (no_contexts host) (omega arith) (omega (arith, enough)))
    where
      joined_ends : (o : _) → o ≢ none → join_collected host o ≢ none
      joined_ends none h e = h refl
      joined_ends (some r) h e = cc e

  module _ (payload : Value) (late : hook_collect_deadline_ms ≤ host.elapsed_ms n) where
    responses-Ends : Ends (finished (collect_responses host fuel))
    responses-Ends = finished-Ends _ (collect_responses_ends late)

    ask-Ends : (hook : Text) (merge : MergeSemantics) → Ends (ask host fuel hook merge payload)
    unfolding ask correlation_id
    ask-Ends hook merge =
        bind-Ends (bind-Ends (try-Ends _) (λ b. pure-Ends _))
          (λ corr_id. search (ending, responses-Ends) depth 12)

    dispatch_mapped-Ends :
        (merge : MergeSemantics) (hook : Text) → Ends (dispatch_mapped host fuel merge hook payload)
    unfolding notify
    dispatch_mapped-Ends MergeSemantics.discard hook = search ending depth 9
    dispatch_mapped-Ends MergeSemantics.tool_call_before hook = ask-Ends hook _
    dispatch_mapped-Ends (MergeSemantics.last_non_null f) hook = ask-Ends hook _

    dispatch_found-Ends : (o : Option HookMapping) → Ends (dispatch_found host fuel o payload)
    dispatch_found-Ends none = pure-Ends none
    dispatch_found-Ends (some m) = dispatch_mapped-Ends m.merge m.hook_name

    dispatch_hook-Ends : (event_type : Text) → Ends (dispatch_hook host fuel event_type payload)
    unfolding dispatch_hook
    dispatch_hook-Ends event_type = dispatch_found-Ends (mapping_for_event event_type)

  module _ (late : host_hook_collect_deadline_ms ≤ host.elapsed_ms n) where
    dispatch_canonical-Ends :
        (event : OracleHookEvent Value) (o : Option (Text × Bool))
        → Ends (dispatch_canonical host fuel o event)
    unfolding ask_context notify_host
    dispatch_canonical-Ends event none = pure-Ends none
    dispatch_canonical-Ends event (some (hook, false)) = search ending depth 9
    dispatch_canonical-Ends event (some (hook, true)) = bind-Ends (try-Ends _) (λ _.
        bind-Ends (try-Ends _) (λ text.
          bind-Ends (publish_json-Ends host _)
            (λ _. finished-Ends _ (collect_additional_context_ends late))))

    serve_valid-Ends :
        (event : OracleHookEvent Value) (principal : Option Text)
        → Ends (serve_valid host fuel event principal)
    unfolding serve_valid dispatch_oracle_hook
    serve_valid-Ends event principal = go (opt_text_eq principal (some event.principal_id))
      where
        go :
            (b : Bool)
            → Ends (elim b as (λ _. Act (Unit {0})) [
              | false ↦ pure tt
              | true ↦ dispatch_oracle_hook host fuel event >>= λ context.
                  publish_json host (response_message host event context)
            ])
        go false = pure-Ends tt
        go true = bind-Ends (dispatch_canonical-Ends event _) (λ c. publish_json-Ends host _)

    serve_checked-Ends :
        (event : OracleHookEvent Value) (r : Result Text (Unit {0}))
        → Ends (serve_checked host fuel event r)
    serve_checked-Ends event (ok tt) = bind-Ends (try-Ends _) (λ p. serve_valid-Ends event p)
    serve_checked-Ends event (err e) = pure-Ends tt

    serve_parsed-Ends : (o : Option (OracleHookEvent Value)) → Ends (serve_parsed host fuel o)
    serve_parsed-Ends none = pure-Ends tt
    serve_parsed-Ends (some event) = serve_checked-Ends event _

    handle_oracle_hook-Ends : (payload : Value) → Ends (handle_oracle_hook host fuel payload)
    unfolding handle_oracle_hook
    handle_oracle_hook-Ends payload = record {
      at = (serve_parsed-Ends (host.from_value payload)).at;
    }

  module _ (payload : Value) (late : hook_collect_deadline_ms ≤ host.elapsed_ms n) where
    lifecycle_result-Ends :
        (b : Bool) (event : Text) → Ends (lifecycle_result host b fuel event payload)
    unfolding observe_lifecycle handle_lifecycle
    lifecycle_result-Ends true event =
        bind-Ends (bind-Ends (dispatch_hook-Ends payload late event) (λ r. pure-Ends tt))
          (λ _. pure-Ends _)
    lifecycle_result-Ends false event =
        bind-Ends (dispatch_hook-Ends payload late event) (λ r. pure-Ends _)

    intercept-Ends : (i : Interceptor) → Ends (intercept host fuel i payload)
    unfolding intercept
    intercept-Ends (Interceptor.lifecycle i) = lifecycle_result-Ends (observes i) (event_of i)
    intercept-Ends (Interceptor.host_hook i) =
        bind-Ends (handle_oracle_hook-Ends (omega (arith, late)) payload) (λ _. pure-Ends _)

    -- Where the clock has reached 5 s at some round, and the fuel goes past that round, every
    -- interceptor ends, with its result or an error of the host.
    pub intercept_ends :
        (i : Interceptor) (log : List Message)
        → (intercept host fuel i payload log).0 ≢ err Stop.unfinished
    intercept_ends i log = (intercept-Ends i).at log
