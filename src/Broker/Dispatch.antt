-- ===== src/Broker/Dispatch.antt =====
-- `dispatch_with_approval`, `poll_signal` and `match_result` of crates/aos-mcp-broker/src/execute.rs:
-- the routed execution of a tool, watched for approvals. The bus is an input: whether the
-- subscriptions and the publication succeed, and what each poll delivers.
pub mod Signals
pub mod Outcomes
use unicity_aos.Base.{
  ℕ, zero, suc, ◌+◌, ◌-◌, min, Bool, true, false, not, ◌&&◌, ◌||◌, List, [], ◌∷◌, Option, none,
  some, ltb, if◌then◌else◌, codes,
}
use unicity_aos.Base.Text.{Text, text_eq, is_empty}
use unicity_aos.Base.Json.{Json, Shape, as_str}
use unicity_aos.Broker.Topics.{is_valid_tool_name, route_topic}
use unicity_aos.Broker.Slices.{drain}
use unicity_aos.Broker.Messages.{Message, execute, ApprovalRequired, GrantRequired}

abbrev pub execute_timeout_ms : ℕ
execute_timeout_ms = 50_000

abbrev pub execute_slice_ms : ℕ
execute_slice_ms = 250

pub data DispatchOutcome (Value : Type 0) : Type 0 where
  result : Value → (is_error : Bool) → DispatchOutcome Value
  approval_required : ApprovalRequired → DispatchOutcome Value
  grant_required : GrantRequired → DispatchOutcome Value
  failed : DispatchOutcome Value

-- What one round of the drain sees: the approval topic before the result slice, the result slice, and
-- the approval topic after it. `none` is an error of the poll or the end of the slice.
pub record Slice : Type 0 where
  pub before : Option (List Text)
  pub results : Option (List Text)
  pub after : Option (List Text)

pub record Bus : Type 0 where
  pub result_sub : Bool
  pub approval_sub : Bool
  pub publishes : Bool
  pub slices : ℕ → Slice

-- The parsers of `serde` for the two envelopes.
pub record Envelopes (Value : Type 0) : Type 0 where
  pub to_approval : Value → Option ApprovalRequired
  pub to_grant : Value → Option GrantRequired

abbrev pub is_str : Option Text → Text → Bool
is_str none t = false
is_str (some s) t = text_eq s t

abbrev is_some_nonempty : Option Text → Bool
is_some_nonempty none = false
is_some_nonempty (some s) = not (is_empty s)

-- `if approval.is_none() && …`
abbrev keep_first : Option ApprovalRequired → Option ApprovalRequired → Option ApprovalRequired
keep_first (some a) b = some a
keep_first none b = b

abbrev of_approval : {Value : Type 0} → Option ApprovalRequired → Option (DispatchOutcome Value)
of_approval none = none
of_approval (some a) = some (approval_required a)

unfoldable pub as_bool : Shape → Bool
as_bool (Shape.bool b) = b
as_bool _ = false

abbrev of_result : {Value : Type 0} → Option (Value × Bool) → Option (DispatchOutcome Value)
of_result none = none
of_result (some (content, e)) = some (result content e)

-- `a` if it returns, else `b`.
abbrev pub or_else :
    {Value : Type 0}
    → Option (DispatchOutcome Value)
    → Option (DispatchOutcome Value)
    → Option (DispatchOutcome Value)
or_else (some o) b = some o
or_else none b = b

-- Enough for the whole window: a round for each slice, and one to end the loop.
abbrev pub drain_fuel : ℕ
drain_fuel = 201

module _ {Value : Type 0} (json : Json Value) where
  unfoldable pub get_str : Value → Text → Option Text
  unfolding as_str
  get_str v field = elim (json.get v field) [ none ↦ none | some w ↦ as_str (json.shape w) ]

module _ {Value : Type 0} (json : Json Value) (envelopes : Envelopes Value) where
  -- `is_approval_required` and `is_grant_required` of approval.rs, by the tag.
  unfoldable pub has_tag : Text → Value → Bool
  unfolding get_str
  has_tag tag v =
      is_str (get_str json v (codes "type")) tag
      && is_some_nonempty (get_str json v (codes "request_id"))

  unfoldable pub read_grant : Value → Option GrantRequired
  read_grant v = if has_tag (codes "grant_required") v then envelopes.to_grant v else none

  unfoldable pub read_approval : Value → Option ApprovalRequired
  read_approval v = if has_tag (codes "approval_required") v then envelopes.to_approval v else none

  -- The loop over one batch: a grant returns at once, the first approval is kept.
  poll_batch : Option ApprovalRequired → List Text → Option (DispatchOutcome Value)
  poll_batch approval [] = of_approval approval
  poll_batch approval (payload ∷ rest) =
      let read_on = λ (a : Option ApprovalRequired). poll_batch a rest in
      elim (json.from_str payload) [
        | none ↦ read_on approval
        | some v ↦ elim (read_grant v) [
          | some g ↦ some (grant_required g)
          | none ↦ read_on (keep_first approval (read_approval v))
        ]
      ]

  unfoldable pub poll_signal : Option (List Text) → Option (DispatchOutcome Value)
  unfolding poll_batch
  poll_signal none = none
  poll_signal (some messages) = poll_batch none messages

module _ {Value : Type 0} (json : Json Value) where
  -- The content and the flag of the `result` field, with their defaults.
  pub content_of : Option Value → Value
  content_of none = json.string_value []
  content_of (some r) = elim (json.get r (codes "content")) [
    | none ↦ json.string_value []
    | some c ↦ c
  ]

  pub error_of : Option Value → Bool
  unfolding as_bool
  error_of none = false
  error_of (some r) = elim (json.get r (codes "is_error")) [
    | none ↦ false
    | some c ↦ as_bool (json.shape c)
  ]

  result_of : Text → Value → Option (Value × Bool)
  unfolding content_of error_of
  result_of call_id v =
      let r = json.get v (codes "result") in
      if is_str (get_str json v (codes "call_id")) call_id
      then some (content_of r, error_of r)
      else none

  unfoldable pub match_result : Text → Text → Option (Value × Bool)
  unfolding result_of
  match_result payload call_id = elim (json.from_str payload) [
    | none ↦ none
    | some v ↦ result_of call_id v
  ]

  -- The first payload of a slice that is the result of this call.
  unfoldable pub first_result : Text → List Text → Option (Value × Bool)
  first_result call_id [] = none
  first_result call_id (payload ∷ rest) =
      let later = first_result call_id rest in
      elim (match_result payload call_id) [ none ↦ later | some found ↦ some found ]

  unfoldable pub slice_result : Text → Option (List Text) → Option (Value × Bool)
  slice_result call_id none = none
  slice_result call_id (some payloads) = first_result call_id payloads

module _ {Value : Type 0} (json : Json Value) (envelopes : Envelopes Value) where
  -- One round of the drain; `none` goes on to the next.
  unfoldable pub round_outcome : Text → Slice → Option (DispatchOutcome Value)
  round_outcome call_id s = or_else (poll_signal json envelopes s.before) (
      or_else (of_result (slice_result json call_id s.results))
        (poll_signal json envelopes s.after))

  -- What the loop returned, or the failure after it.
  abbrev pub or_failed : Option (DispatchOutcome Value) → DispatchOutcome Value
  or_failed none = failed
  or_failed (some o) = o

  run_drain : Text → Bus → DispatchOutcome Value
  run_drain call_id bus =
      let round = λ (i : ℕ). round_outcome call_id (bus.slices i) in
      or_failed (drain execute_slice_ms round failed drain_fuel 0 execute_timeout_ms)

  -- What is published, and the outcome.
  unfoldable pub dispatch_with_approval :
      Text → Text → Value → Bus → List (Message Value) × DispatchOutcome Value
  unfolding run_drain
  dispatch_with_approval tool_name call_id arguments bus =
      if not (is_valid_tool_name tool_name)
        || not bus.result_sub
        || not bus.approval_sub
        || not bus.publishes
      then ([], failed)
      else (execute (route_topic tool_name) call_id tool_name arguments ∷ [], run_drain call_id bus)
