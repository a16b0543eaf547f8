-- ===== src/Hooks/Oracle/Bound.antt =====
-- About what the hooks of host agents publish (capsules/capsule-hook-bridge/src/lib.rs).
use unicity_aos.Base.{
  ℕ, ◌≡◌, ◌⊎◌, inl, inr, refl, ap, ◌∙◌, Bool, true, false, not, Option, none, some, [], ◌++◌, codes,
  All, Bool-cases,
}
use unicity_aos.Base.Text.{Text, text_eq_iff, opt_text_eq, opt_text_eq_iff}
use unicity_aos.Base.Result.{Result, ok, err}
use unicity_aos.Hooks.Mapping.{canonical_hook_for_host_event}
use unicity_aos.Hooks.Bus.{SysError, Host, OracleHookEvent, Message, Act, try, ◌>>=◌, publish_json}
use unicity_aos.Hooks.Dispatch.{event_topic, request_message}
use unicity_aos.Hooks.Oracle.{
  reject_if, delivery_of, validate_oracle_hook, notify_host, ask_context, dispatch_canonical,
  dispatch_oracle_hook, response_message, serve_valid, serve_checked, serve_parsed,
  handle_oracle_hook,
}
use unicity_aos.Hooks.Publishes.{
  Publishes, pure-Publishes, try-Publishes, finished-Publishes, bind-Publishes,
  publish_json-Publishes,
}

-- A check that lets pass.
passed :
    (b : Bool) (reason : Text) (rest : Result Text (Unit {0}))
    → reject_if b reason rest ≡ ok tt
    → (b ≡ false) × (rest ≡ ok tt)
unfolding reject_if
passed true reason rest e = absurd (cc e)
passed false reason rest e = (refl, e)

not-false : (b : Bool) → not b ≡ false → b ≡ true
not-false true e = refl
not-false false e = absurd (cc e)

module _ {Value : Type 0} (host : Host Value) where
  -- A request or a response that the event gives rise to.
  abbrev pub IsFrom : OracleHookEvent Value → Message → Type 0
  IsFrom event (Message.request topic r) =
      ((asks : Bool) × (canonical_hook_for_host_event event.event ≡ some (r.hook, asks)))
      × (topic ≡ event_topic r.hook)
      × ((r.correlation_id ≡ none) ⊎ (r.correlation_id ≡ some event.correlation_id))
  IsFrom event (Message.response topic r) =
      (topic ≡ codes "oracle.v1.hook.response." ++ delivery_of host event)
      × (r.principal_id ≡ event.principal_id)
      × (r.delivery_id ≡ event.delivery_id)

  -- The event is valid, and its caller is the principal that it names.
  abbrev pub IsAllowed : Value → Message → Type 0
  IsAllowed payload m =
      (event : OracleHookEvent Value) × (host.from_value payload ≡ some event)
      × (validate_oracle_hook host event ≡ ok tt)
      × (host.caller ≡ ok (some event.principal_id))
      × IsFrom event m

  validated_delivery :
      (event : OracleHookEvent Value)
      → validate_oracle_hook host event ≡ ok tt
      → event.delivery_id ≡ delivery_of host event
  unfolding validate_oracle_hook
  validated_delivery event e =
      let (_, a) = passed _ _ _ e in
      let (_, b) = passed _ _ _ a in
      let (_, c) = passed _ _ _ b in
      let (_, d) = passed _ _ _ c in
      let (_, f) = passed _ _ _ d in
      let (bound, _) = passed _ _ _ f in (text_eq_iff _ _).0 (not-false _ bound)

  module _ (payload : Value) (event : OracleHookEvent Value)
      (parsed : host.from_value payload ≡ some event)
      (valid : validate_oracle_hook host event ≡ ok tt)
      (called : host.caller ≡ ok (some event.principal_id)) where
    request-IsAllowed :
        (hook text : Text) (asks : Bool) (corr : Option Text)
        → canonical_hook_for_host_event event.event ≡ some (hook, asks)
        → (corr ≡ none) ⊎ (corr ≡ some event.correlation_id)
        → IsAllowed payload (request_message host hook text corr)
    unfolding request_message
    request-IsAllowed hook text asks corr mapped h =
        (event, parsed, valid, called, ((asks, mapped), refl, h))

    response-IsAllowed :
        (context : Option Text) → IsAllowed payload (response_message host event context)
    unfolding response_message
    response-IsAllowed context = (
      event,
      parsed,
      valid,
      called,
      (
        ap (λ t. codes "oracle.v1.hook.response." ++ t) (validated_delivery event valid),
        refl,
        refl,
      ),
    )

    dispatch-Publishes :
        (fuel : ℕ) (found : Option (Text × Bool))
        → canonical_hook_for_host_event event.event ≡ found
        → Publishes (IsAllowed payload) (dispatch_canonical host fuel found event)
    unfolding ask_context notify_host
    dispatch-Publishes fuel none e = pure-Publishes none
    dispatch-Publishes fuel (some (hook, true)) e = bind-Publishes (try-Publishes _) (λ _.
        bind-Publishes (try-Publishes _) (λ text.
          bind-Publishes
            (publish_json-Publishes host _ (request-IsAllowed hook text _ _ e (inr refl)))
            (λ _. finished-Publishes _)))
    dispatch-Publishes fuel (some (hook, false)) e = bind-Publishes (try-Publishes _) (λ text.
        bind-Publishes
          (publish_json-Publishes host _ (request-IsAllowed hook text _ _ e (inl refl)))
          (λ _. pure-Publishes none))

    answered-Publishes :
        (fuel : ℕ)
        → Publishes (IsAllowed payload) (
            dispatch_oracle_hook host fuel event >>= λ context.
            publish_json host (response_message host event context))
    unfolding dispatch_oracle_hook
    answered-Publishes fuel =
        bind-Publishes (dispatch-Publishes fuel (canonical_hook_for_host_event event.event) refl)
          (λ context. publish_json-Publishes host _ (response-IsAllowed context))

  -- An action that publishes only what is allowed for the payload.
  abbrev Obeys : {A : Type 0} → Value → Act A → Type 0
  Obeys payload m = Publishes (IsAllowed payload) m

  module _ (payload : Value) (event : OracleHookEvent Value)
      (parsed : host.from_value payload ≡ some event)
      (valid : validate_oracle_hook host event ≡ ok tt) where
    serve_valid-Obeys :
        (fuel : ℕ) (principal : Option Text)
        → host.caller ≡ ok principal
        → Obeys payload (serve_valid host fuel event principal)
    unfolding serve_valid
    serve_valid-Obeys fuel principal c =
        elim (Bool-cases (opt_text_eq principal (some event.principal_id))) [
          | inl q ↦
              rw (serve_valid, q)
                (answered-Publishes payload event parsed valid
                  (c ∙ ap (λ p. ok p) ((opt_text_eq_iff _ _).0 q)) fuel)
          | inr q ↦ rw (serve_valid, q) (pure-Publishes tt)
        ]

    called-Obeys :
        (fuel : ℕ) (caller : Result SysError (Option Text))
        → host.caller ≡ caller
        → Obeys payload (try caller >>= λ principal. serve_valid host fuel event principal)
    unfolding ◌>>=◌ try
    called-Obeys fuel (err e) c = record { at = λ log h. h }
    called-Obeys fuel (ok principal) c = record { at = (serve_valid-Obeys fuel principal c).at }

  serve_checked-Obeys :
      (fuel : ℕ) (payload : Value) (event : OracleHookEvent Value)
      → host.from_value payload ≡ some event
      → (r : Result Text (Unit {0})) → validate_oracle_hook host event ≡ r
      → Obeys payload (serve_checked host fuel event r)
  serve_checked-Obeys fuel payload event parsed (err reason) v = pure-Publishes tt
  serve_checked-Obeys fuel payload event parsed (ok tt) v =
      called-Obeys payload event parsed v fuel host.caller refl

  serve_parsed-Obeys :
      (fuel : ℕ) (payload : Value) (o : Option (OracleHookEvent Value))
      → host.from_value payload ≡ o
      → Obeys payload (serve_parsed host fuel o)
  serve_parsed-Obeys fuel payload none p = pure-Publishes tt
  serve_parsed-Obeys fuel payload (some event) p =
      serve_checked-Obeys fuel payload event p (validate_oracle_hook host event) refl

  -- Whatever the reply of a host's hook is, each message that it gives rise to belongs to a payload
  -- that is a valid event whose principal is the caller: a request on the event's canonical hook, with the
  -- event's correlation or none, or a response on the topic of the route and the correlation, that
  -- names the principal and the delivery.
  pub handle_oracle_hook-All :
      (fuel : ℕ) (payload : Value)
      → All (IsAllowed payload) (handle_oracle_hook host fuel payload []).1
  unfolding handle_oracle_hook
  handle_oracle_hook-All fuel payload =
      (serve_parsed-Obeys fuel payload (host.from_value payload) refl).at [] tt
