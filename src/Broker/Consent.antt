-- ===== src/Broker/Consent.antt =====
-- The consent records of the broker in the key-value store: ingress trust and prompt markers, grant
-- prompt markers (crates/aos-mcp-broker/src/execute.rs) and durable grant decisions (grant_decision.rs).
pub mod Keys
pub mod Markers
pub mod Frame
use unicity_aos.Base.{
  ℕ, ◌-◌, Bool, true, false, ◌||◌, List, [], ◌∷◌, ◌++◌, Option, none, some, ltb, ◌==◌,
  if◌then◌else◌, codes,
}
use unicity_aos.Base.Text.{Text, text_eq, trim, is_empty}
use unicity_aos.Base.Decimal.{print, parse_u64}
use unicity_aos.Broker.Kv.{
  Kv, Faults, Got, found, missing, failed, get_bytes_opt, set_bytes, delete,
}

-- A prefix before a non-empty suffix; `None` for the empty one.
unfoldable pub suffix_key : Text → Text → Option Text
suffix_key prefix [] = none
suffix_key prefix (c ∷ s) = some (prefix ++ (c ∷ s))

abbrev pub trust_prefix : Text
trust_prefix = codes "mcp.ingress.trust."

abbrev pub pending_prefix : Text
pending_prefix = codes "mcp.ingress.pending."

abbrev pub grant_pending_prefix : Text
grant_pending_prefix = codes "mcp.grant.pending."

abbrev pub grant_decision_prefix : Text
grant_decision_prefix = codes "mcp.grant.decision."

abbrev pub ingress_trust_key : Text → Option Text
ingress_trust_key source_id = suffix_key trust_prefix source_id

abbrev pub ingress_pending_key : Text → Option Text
ingress_pending_key source_id = suffix_key pending_prefix source_id

abbrev pub grant_pending_key : Text → Option Text
grant_pending_key capsule_id = suffix_key grant_pending_prefix capsule_id

abbrev pub grant_decision_key : Text → Option Text
grant_decision_key capsule_id = suffix_key grant_decision_prefix capsule_id

abbrev pub mark_value : Text
mark_value = codes "1"

abbrev set_at : Faults → Option Text → Text → Kv → Kv
set_at f none v kv = kv
set_at f (some k) v kv = set_bytes f k v kv

-- `kv::get_bytes_opt` at a key that is there and present, which is then deleted.
take_at : Faults → Option Text → Kv → Bool × Kv
take_at f none kv = (false, kv)
take_at f (some k) kv = elim (get_bytes_opt f k kv) [
  | found _ ↦ (true, delete f k kv)
  | _ ↦ (false, kv)
]

unfoldable pub mark_ingress_pending : Faults → Text → Kv → Kv
mark_ingress_pending f source_id kv = set_at f (ingress_pending_key source_id) mark_value kv

unfoldable pub take_ingress_pending : Faults → Text → Kv → Bool × Kv
unfolding take_at
take_ingress_pending f source_id kv = take_at f (ingress_pending_key source_id) kv

is_found : Got → Bool
is_found (found _) = true
is_found _ = false

has_at : Faults → Option Text → Kv → Bool
unfolding is_found
has_at f none kv = false
has_at f (some k) kv = is_found (get_bytes_opt f k kv)

unfoldable pub is_ingress_trusted : Faults → Text → Kv → Bool
unfolding has_at
is_ingress_trusted f source_id kv = has_at f (ingress_trust_key source_id) kv

abbrev pub grant_pending_ttl_ms : ℕ
grant_pending_ttl_ms = 120_000

-- `wall_ms` is the clock in milliseconds, 0 where the host has none.
unfoldable pub mark_grant_pending : Faults → ℕ → Text → Kv → Kv
mark_grant_pending f wall_ms capsule_id kv =
    set_at f (grant_pending_key capsule_id) (print wall_ms) kv

written_is_fresh : ℕ → ℕ → Bool
written_is_fresh written now =
    if written == 0 || ltb now written then false else ltb (now - written) grant_pending_ttl_ms

unfoldable pub marker_is_fresh_at : Text → ℕ → Bool
unfolding written_is_fresh
marker_is_fresh_at value now = if now == 0 then false else elim (parse_u64 (trim value)) [
  | none ↦ false
  | some written ↦ written_is_fresh written now
]

pending_at : Faults → ℕ → Option Text → Kv → Bool × Kv
pending_at f now none kv = (false, kv)
pending_at f now (some k) kv = elim (get_bytes_opt f k kv) [
  | found bytes ↦ if marker_is_fresh_at bytes now then (true, kv) else (false, delete f k kv)
  | _ ↦ (false, kv)
]

-- The peek at a grant prompt's marker; a stale one is deleted.
unfoldable pub grant_pending : Faults → ℕ → Text → Kv → Bool × Kv
unfolding pending_at
grant_pending f now capsule_id kv = pending_at f now (grant_pending_key capsule_id) kv

unfoldable pub take_grant_pending : Faults → Text → Kv → Bool × Kv
unfolding take_at
take_grant_pending f capsule_id kv = take_at f (grant_pending_key capsule_id) kv

pub data GrantDecision : Type 0 where
  approve deny : GrantDecision

abbrev pub as_kv_value : GrantDecision → Text
as_kv_value approve = codes "approve"
as_kv_value deny = codes "deny"

unfoldable pub parse_grant_decision : Text → Option GrantDecision
parse_grant_decision value =
    if text_eq (trim value) (codes "approve")
    then some approve
    else if text_eq (trim value) (codes "deny")
    then some deny
    else none

unfoldable pub respond_decision_to_record : Bool → Option GrantDecision
respond_decision_to_record granted = if granted then some approve else none

unfoldable pub record_grant_decision : Faults → Text → GrantDecision → Kv → Kv
record_grant_decision f capsule_id decision kv =
    set_at f (grant_decision_key capsule_id) (as_kv_value decision) kv

decision_at : Faults → Option Text → Kv → Option GrantDecision
decision_at f none kv = none
decision_at f (some k) kv = elim (get_bytes_opt f k kv) [
  | found bytes ↦ parse_grant_decision bytes
  | _ ↦ none
]

unfoldable pub recorded_grant_decision : Faults → Text → Kv → Option GrantDecision
unfolding decision_at
recorded_grant_decision f capsule_id kv = decision_at f (grant_decision_key capsule_id) kv

pub data GrantAction : Type 0 where
  auto_approve auto_deny prompt : GrantAction

unfoldable pub grant_action : Option GrantDecision → GrantAction
grant_action (some approve) = auto_approve
grant_action (some deny) = auto_deny
grant_action none = prompt
