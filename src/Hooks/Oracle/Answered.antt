-- ===== src/Hooks/Oracle/Answered.antt =====
-- About the answer to a host's hook (capsules/capsule-hook-bridge/src/lib.rs).
use unicity_aos.Base.{
  ℕ, ◌≡◌, subst, sym, ◌⊎◌, inl, inr, codes, refl, ap, ◌∙◌, Bool, true, false, Option, none, some,
  List, [], ◌∷◌, ◌++◌, if◌then◌else◌,
}
use unicity_aos.Base.Text.{Text, opt_text_eq, opt_text_eq_iff}
use unicity_aos.Base.Result.{Result, ok, err}
use unicity_aos.Hooks.Mapping.{canonical_hook_for_host_event}
use unicity_aos.Hooks.Bus.{
  SysError, Stop, Host, OracleHookEvent, Message, Act, pure, try, stop_of, continue, ◌>>=◌,
  publish_json,
}
use unicity_aos.Hooks.Collect.{collect_additional_context}
use unicity_aos.Hooks.Dispatch.{finished, reply_topic, event_topic, request_message}
use unicity_aos.Hooks.Oracle.{
  validate_oracle_hook, canonical_payload, notify_host, ask_context, dispatch_canonical,
  dispatch_oracle_hook, response_message, serve_valid, serve_checked, serve_parsed,
  handle_oracle_hook,
}

Result-cases : {E A : Type 0} (r : Result E A) → ((e : E) × (r ≡ err e)) ⊎ ((a : A) × (r ≡ ok a))
Result-cases (err e) = inl (e, refl)
Result-cases (ok a) = inr (a, refl)

-- A call on the host that fails.
abbrev pub Fails : {A : Type 0} → Result SysError A → Type 0
Fails r = (x : SysError) × (r ≡ err x)

module _ {Value : Type 0} (host : Host Value) (fuel : ℕ) (event : OracleHookEvent Value) where
  abbrev pub printed : Result SysError Text
  printed = host.canonical_string (record {
    principal_id = event.principal_id;
    host = event.host;
    session_id = event.session_id;
    source_event = event.event;
    turn_id = event.turn_id;
    workspace_id = event.workspace_id;
    payload = event.payload;
  })

  -- The request on a hook, with the event's correlation if the hook asks for context.
  abbrev pub request_of : Text → Bool → Text → Message
  request_of hook asks text = Message.request (codes "hook.v1.event." ++ hook) (record {
    hook = hook;
    payload = text;
    correlation_id = if asks then some event.correlation_id else none;
  })

  abbrev pub response_of : Option Text → Message
  response_of context =
      Message.response (codes "oracle.v1.hook.response." ++ event.delivery_id) (record {
        schema_version = 1;
        principal_id = event.principal_id;
        host = event.host;
        session_id = event.session_id;
        event = event.event;
        correlation_id = event.correlation_id;
        route_id = event.route_id;
        delivery_id = event.delivery_id;
        context = context;
      })

  abbrev pub listens : Text → Result SysError (Unit {0})
  listens hook =
      host.subscribe (codes "hook.v1.response." ++ (hook ++ (b'.' ∷ event.correlation_id)))

  -- The context that the loop ends with, if the hook asks for one; else none.
  abbrev pub Collects : Bool → Option Text → Type 0
  Collects true context = collect_additional_context host fuel ≡ some (ok context)
  Collects false context = context ≡ none

  -- The runs: nothing is sent where a call before the request fails; only the request is sent where
  -- the collection or the response fails; else the request and then the response.
  pub data Answer (hook : Text) (asks : Bool) : Result Stop (Unit {0}) × List Message → Type 0 where
    nothing_sent :
        (e : Stop)
        → ((asks ≡ true) × Fails (listens hook))
          ⊎ (Fails printed
              ⊎ ((text : Text) × (printed ≡ ok text)
                  × Fails (host.publish (request_of hook asks text))))
        → Answer hook asks (err e, [])
    request_sent :
        (e : Stop) (text : Text)
        → printed ≡ ok text
        → ((context : Option Text) → ¬ Collects asks context)
          ⊎ ((context : Option Text) × Collects asks context
              × Fails (host.publish (response_of context)))
        → Answer hook asks (err e, request_of hook asks text ∷ [])
    answered :
        (text : Text) (context : Option Text)
        → printed ≡ ok text
        → Collects asks context
        → Answer hook asks (ok tt, request_of hook asks text ∷ response_of context ∷ [])

  -- From the request on, once its text is there.
  abbrev rest : Act (Option Text) → Act Unit
  rest m = m >>= λ context. publish_json host (response_message host event context)

  respond_after :
      (hook : Text) (asks : Bool) (text : Text) (context : Option Text)
      → printed ≡ ok text
      → Collects asks context
      → Answer hook asks
          (publish_json host (response_message host event context) (request_of hook asks text ∷ []))
  unfolding publish_json response_message
  respond_after hook asks text context p c =
      elim (Result-cases (host.publish (response_of context))) [
        | inl (x, q) ↦ rw q (request_sent (Stop.failed x) text p (inr (context, c, (x, q))))
        | inr (_, q) ↦ rw q (answered text context p c)
      ]

  collected_after :
      (hook text : Text) (o : Option (Result SysError (Option Text)))
      → printed ≡ ok text
      → collect_additional_context host fuel ≡ o
      → Answer hook true (rest (finished o) (request_of hook true text ∷ []))
  unfolding ◌>>=◌ finished try
  collected_after hook text none p c =
      request_sent Stop.unfinished text p (inl (λ context k. cc (c, k)))
  collected_after hook text (some (err x)) p c =
      request_sent (Stop.failed x) text p (inl (λ context k. cc (c, k)))
  collected_after hook text (some (ok context)) p c = respond_after hook true text context p c

  asks-Answer : (hook : Text) → Answer hook true (rest (ask_context host fuel hook event) [])
  unfolding ask_context ◌>>=◌ try publish_json request_message event_topic reply_topic
      canonical_payload
  asks-Answer hook = elim (Result-cases (listens hook)) [
    | inl (x, q) ↦ rw q (nothing_sent (Stop.failed x) (inl (refl, (x, q))))
    | inr (_, l) ↦ elim (Result-cases printed) [
      | inl (x, q) ↦ rw (l, q) (nothing_sent (Stop.failed x) (inr (inl (x, q))))
      | inr (text, p) ↦ elim (Result-cases (host.publish (request_of hook true text))) [
        | inl (x, q) ↦ rw (l, p, q) (nothing_sent (Stop.failed x) (inr (inr (text, p, (x, q)))))
        | inr (_, q) ↦ rw (l, p, q) (collected_after hook text _ p refl)
      ]
    ]
  ]

  notifies-Answer : (hook : Text) → Answer hook false (rest (notify_host host hook event) [])
  unfolding notify_host ◌>>=◌ try publish_json pure request_message event_topic canonical_payload
  notifies-Answer hook = elim (Result-cases printed) [
    | inl (x, q) ↦ rw q (nothing_sent (Stop.failed x) (inr (inl (x, q))))
    | inr (text, p) ↦ elim (Result-cases (host.publish (request_of hook false text))) [
      | inl (x, q) ↦ rw (p, q) (nothing_sent (Stop.failed x) (inr (inr (text, p, (x, q)))))
      | inr (_, q) ↦ rw (p, q) (respond_after hook false text none p refl)
    ]
  ]

  dispatch-Answer :
      (hook : Text) (asks : Bool)
      → Answer hook asks (rest (dispatch_canonical host fuel (some (hook, asks)) event) [])
  dispatch-Answer hook true = asks-Answer hook
  dispatch-Answer hook false = notifies-Answer hook

  served-Answer :
      (hook : Text) (asks : Bool)
      → canonical_hook_for_host_event event.event ≡ some (hook, asks)
      → Answer hook asks (serve_valid host fuel event (some event.principal_id) [])
  unfolding serve_valid dispatch_oracle_hook
  served-Answer hook asks mapped =
      let same : opt_text_eq (some event.principal_id) (some event.principal_id) ≡ true =
        (opt_text_eq_iff _ _).1 refl in
      rw (serve_valid, same, dispatch_oracle_hook, mapped) (dispatch-Answer hook asks)

  -- How a valid event of its own principal is answered, by what the calls on the host return. Nothing
  -- is sent, and the handler fails, only where a call before the request fails; the request on the
  -- event's canonical hook alone only where the collection of the context or the response fails; else
  -- the request and then the response to the event, which carries the context that was collected, if
  -- the hook asks for one, or else none.
  pub handle_oracle_hook-Answer :
      (hook : Text) (asks : Bool) (payload : Value)
      → host.from_value payload ≡ some event
      → validate_oracle_hook host event ≡ ok tt
      → host.caller ≡ ok (some event.principal_id)
      → canonical_hook_for_host_event event.event ≡ some (hook, asks)
      → Answer hook asks (handle_oracle_hook host fuel payload [])
  unfolding handle_oracle_hook ◌>>=◌ try
  handle_oracle_hook-Answer hook asks payload parsed valid called mapped =
      let reaches : handle_oracle_hook host fuel payload []
          ≡ serve_valid host fuel event (some event.principal_id) [] =
        ap (λ o. serve_parsed host fuel o []) parsed
        ∙ ap (λ r. serve_checked host fuel event r []) valid
        ∙ ap (λ c. continue (stop_of c) (serve_valid host fuel event) []) called in
      subst (Answer hook asks) (sym reaches) (served-Answer hook asks mapped)
