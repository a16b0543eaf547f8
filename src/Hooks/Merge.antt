-- ===== src/Hooks/Merge.antt =====
-- The merge of the responses to a hook, `apply_merge` of capsules/capsule-hook-bridge/src/lib.rs.
pub mod Laws
use unicity_aos.Base.{
  Bool, true, false, ◌||◌, Option, none, some, List, [], ◌∷◌, codes, if◌then◌else◌,
}
use unicity_aos.Base.Text.{Text}
use unicity_aos.Base.Json.{Json, Shape}
use unicity_aos.Hooks.Mapping.{MergeSemantics}

pub record HookResult (Value : Type 0) : Type 0 where
  pub skip : Option Bool
  pub data_value : Option Value

-- `Value::as_bool` with `unwrap_or(false)`, and `!Value::is_null`
abbrev pub is_true : Shape → Bool
is_true (Shape.bool b) = b
is_true _ = false

abbrev pub is_non_null : Shape → Bool
is_non_null Shape.null = false
is_non_null _ = true

module _ {Value : Type 0} (json : Json Value) where
  abbrev pub true_member : Option Value → Bool
  true_member none = false
  true_member (some v) = is_true (json.shape v)

  abbrev pub non_null_member : Option Value → Option Value
  non_null_member none = none
  non_null_member (some v) = if is_non_null (json.shape v) then some v else none

  abbrev pub skips : Value → Bool
  skips resp = true_member (json.get resp (codes "skip"))

  abbrev pub value_at : Text → Value → Option Value
  value_at field resp = non_null_member (json.get resp field)

  -- `if let Some(x) = … { last = Some(x) }`
  abbrev pub or_last : Option Value → Option Value → Option Value
  or_last none last = last
  or_last (some v) last = some v

  unfoldable pub last_value : Text → List Value → Option Value → Option Value
  last_value field [] last = last
  last_value field (resp ∷ responses) last =
      last_value field responses (or_last (value_at field resp) last)

  unfoldable pub any_skip : List Value → Bool → Bool
  any_skip [] skip = skip
  any_skip (resp ∷ responses) skip = any_skip responses (if skips resp then true else skip)

  unfoldable pub apply_merge : MergeSemantics → List Value → HookResult Value
  apply_merge MergeSemantics.discard responses = record { skip = none; data_value = none }
  apply_merge MergeSemantics.tool_call_before responses = record {
    skip = if any_skip responses false then some true else none;
    data_value = last_value (codes "modified_params") responses none;
  }
  apply_merge (MergeSemantics.last_non_null field) responses = record {
    skip = none;
    data_value = last_value field responses none;
  }
