-- ===== src/Hooks/Oracle.antt =====
-- The hooks of host agents, `validate_oracle_hook`, `dispatch_oracle_hook` and `handle_oracle_hook`
-- of capsules/capsule-hook-bridge/src/lib.rs.
pub mod Answered
pub mod Bound
use unicity_aos.Base.{
  ℕ, ◌+◌, ◌==◌, leb, ltb, all, Bool, true, false, not, ◌&&◌, ◌||◌, Option, none, some, List, [],
  ◌∷◌, ◌++◌, codes, if◌then◌else◌,
}
use unicity_aos.Base.Text.{
  Text, text_eq, opt_text_eq, has_text, is_empty, byte_len, is_ascii_alphanumeric,
}
use unicity_aos.Base.Result.{Result, ok, err, fail_if}
use unicity_aos.Base.Result
use unicity_aos.Hooks.Mapping.{canonical_hook_for_host_event}
use unicity_aos.Hooks.Bus.{
  SysError, Host, OracleHookEvent, OracleHookResponse, CanonicalOraclePayload, Message, Act, pure,
  try, ◌>>=◌, ◌>>◌, publish_json,
}
use unicity_aos.Hooks.Collect.{collect_additional_context}
use unicity_aos.Hooks.Dispatch.{finished, reply_topic, request_message}

abbrev pub max_host_payload_bytes : ℕ
max_host_payload_bytes = 1_048_576

abbrev pub segment_char : ℕ → Bool
segment_char c = is_ascii_alphanumeric c || (c == b'_' || c == b'-')

-- The bytes of a text that is not ASCII are no characters of a segment, as its code points are not.
unfoldable pub is_clean_segment : Text → ℕ → Bool
is_clean_segment value max =
    not (is_empty value) && (leb (byte_len value) max && all segment_char value)

abbrev pub hex_char : ℕ → Bool
hex_char c = (leb b'0' c && leb c b'9') || (leb b'a' c && leb c b'f')

unfoldable pub is_lower_hex : Text → ℕ → Bool
is_lower_hex value expected_len = byte_len value == expected_len && all hex_char value

abbrev pub is_none : {A : Type 0} → Option A → Bool
is_none none = true
is_none (some a) = false

-- `is_some_and`
abbrev pub bad_turn : Option Text → Bool
bad_turn none = false
bad_turn (some value) = is_empty value || ltb 256 (byte_len value)

abbrev pub bad_workspace : Option Text → Bool
bad_workspace none = false
bad_workspace (some value) = not (is_clean_segment value 128)

abbrev pub too_long : Option ℕ → Bool
too_long none = true
too_long (some n) = ltb max_host_payload_bytes n

-- `if b { return Err(reason); }`, and the checks after it.
unfoldable pub reject_if : Bool → Text → Result Text (Unit {0}) → Result Text (Unit {0})
reject_if b reason rest = if b then err reason else rest

module _ {Value : Type 0} (host : Host Value) where
  abbrev pub bad_segment : OracleHookEvent Value → Bool
  bad_segment event =
      not (is_clean_segment event.session_id 128)
      || (not (is_clean_segment event.event 128) || not (is_clean_segment event.delivery_id 128))

  abbrev pub bad_route : OracleHookEvent Value → Bool
  bad_route event =
      not (is_lower_hex event.route_id 64) || not (is_lower_hex event.correlation_id 32)

  abbrev pub delivery_of : OracleHookEvent Value → Text
  delivery_of event = event.route_id ++ (b'-' ∷ event.correlation_id)

  unfoldable pub validate_oracle_hook : OracleHookEvent Value → Result Text (Unit {0})
  validate_oracle_hook event =
      reject_if (not (event.schema_version == 1)) (codes "unsupported schema version") (
        reject_if (not (has_text (codes "codex" ∷ codes "claude" ∷ codes "grok" ∷ []) event.host))
          (codes "unsupported host")
          (reject_if (is_none (canonical_hook_for_host_event event.event))
            (codes "unsupported host event")
            (reject_if (bad_segment event) (codes "invalid routed segment") (
              reject_if (bad_route event) (codes "invalid route identifier") (
                reject_if (not (text_eq event.delivery_id (delivery_of event)))
                  (codes "delivery identifier does not bind route and correlation")
                  (reject_if (bad_turn event.turn_id || bad_workspace event.workspace_id)
                    (codes "invalid optional routing metadata")
                    (reject_if (too_long (host.byte_size event.payload))
                      (codes "host payload exceeds limit") (ok tt))))))))

  unfoldable pub canonical_payload : OracleHookEvent Value → CanonicalOraclePayload Value
  canonical_payload event = record {
    principal_id = event.principal_id;
    host = event.host;
    session_id = event.session_id;
    source_event = event.event;
    turn_id = event.turn_id;
    workspace_id = event.workspace_id;
    payload = event.payload;
  }

  unfoldable pub notify_host : Text → OracleHookEvent Value → Act (Option Text)
  notify_host hook event = do
    text ← try (host.canonical_string (canonical_payload event))
    publish_json host (request_message host hook text none)
    pure none

  unfoldable pub ask_context : ℕ → Text → OracleHookEvent Value → Act (Option Text)
  ask_context fuel hook event = do
    try (host.subscribe (reply_topic hook event.correlation_id))
    text ← try (host.canonical_string (canonical_payload event))
    publish_json host (request_message host hook text (some event.correlation_id))
    finished (collect_additional_context host fuel)

  abbrev pub dispatch_canonical :
      ℕ → Option (Text × Bool) → OracleHookEvent Value → Act (Option Text)
  dispatch_canonical fuel none event = pure none
  dispatch_canonical fuel (some (hook, true)) event = ask_context fuel hook event
  dispatch_canonical fuel (some (hook, false)) event = notify_host hook event

  unfoldable pub dispatch_oracle_hook : ℕ → OracleHookEvent Value → Act (Option Text)
  dispatch_oracle_hook fuel event =
      dispatch_canonical fuel (canonical_hook_for_host_event event.event) event

  unfoldable pub response_message : OracleHookEvent Value → Option Text → Message
  response_message event context =
      Message.response (codes "oracle.v1.hook.response." ++ event.delivery_id) (record {
        schema_version = 1;
        principal_id = event.principal_id;
        host = event.host;
        session_id = event.session_id;
        event = event.event;
        correlation_id = event.correlation_id;
        route_id = event.route_id;
        delivery_id = event.delivery_id;
        context = context;
      })

  unfoldable pub serve_valid : ℕ → OracleHookEvent Value → Option Text → Act Unit
  serve_valid fuel event principal = elim (opt_text_eq principal (some event.principal_id)) [
    | false ↦ pure tt
    | true ↦ dispatch_oracle_hook fuel event >>= λ context.
        publish_json host (response_message event context)
  ]

  abbrev pub serve_checked : ℕ → OracleHookEvent Value → Result Text (Unit {0}) → Act Unit
  serve_checked fuel event (ok tt) = do
    principal ← try host.caller
    serve_valid fuel event principal
  serve_checked fuel event (err reason) = pure tt

  abbrev pub serve_parsed : ℕ → Option (OracleHookEvent Value) → Act Unit
  serve_parsed fuel none = pure tt
  serve_parsed fuel (some event) = serve_checked fuel event (validate_oracle_hook event)

  unfoldable pub handle_oracle_hook : ℕ → Value → Act Unit
  handle_oracle_hook fuel payload = serve_parsed fuel (host.from_value payload)
