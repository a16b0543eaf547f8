-- ===== src/Context.antt =====
-- The compaction strategy of the context engine:
-- capsules/capsule-context-engine/src/strategy.rs. A message is a value of the JSON library, given
-- with its serialized text.
pub mod Indices
pub mod Reference
pub mod Retained
pub mod Budget
mod Tests
use unicity_aos.Base.{
  ℕ, suc, ◌+◌, ◌-◌, ◌/◌, ◌%◌, min, Bool, true, false, not, ◌||◌, List, [], ◌∷◌, length, get_elem?,
  Option, none, some, ltb, leb, ◌==◌, if◌then◌else◌, codes,
}
use unicity_aos.Base.Text.{has_text, Text, byte_len, text_eq}
use unicity_aos.Base.Decimal.{u64_max}
use unicity_aos.Base.Json.{Json, as_str}

-- `u64::div_ceil(4)`
unfoldable pub div_ceil4 : ℕ → ℕ
div_ceil4 n = if n % 4 == 0 then n / 4 else n / 4 + 1

unfoldable pub saturating_add : ℕ → ℕ → ℕ
saturating_add a b = min (a + b) u64_max

unfoldable pub has_index : List ℕ → ℕ → Bool
has_index [] i = false
has_index (j ∷ js) i = j == i || has_index js i

module _ {Value : Type 0} (json : Json Value) (to_string : Value → Text) where
  unfoldable pub estimate_tokens : Value → ℕ
  estimate_tokens message = div_ceil4 (min (byte_len (to_string message)) u64_max)

  total_from : ℕ → List Value → ℕ
  total_from acc [] = acc
  total_from acc (m ∷ ms) = total_from (saturating_add acc (estimate_tokens m)) ms

  unfoldable pub estimate_total_tokens : List Value → ℕ
  unfolding total_from
  estimate_total_tokens messages = total_from 0 messages

  -- `id`, or else `message_id`, if it is a string.
  unfoldable pub message_id : Value → Option Text
  message_id msg = elim (json.get msg (codes "id")) [
    | some v ↦ as_str (json.shape v)
    | none ↦ elim (json.get msg (codes "message_id")) [
      | some v ↦ as_str (json.shape v)
      | none ↦ none
    ]
  ]

  unfoldable pub is_protected : List Text → Value → Bool
  is_protected protected_ids msg = elim (message_id msg) [
    | none ↦ false
    | some id ↦ has_text protected_ids id
  ]

  -- The first loop, from the index `i` on.
  unfoldable pub removable_indices : ℕ → List Text → ℕ → List Value → List ℕ
  removable_indices recent_start protected_ids i [] = []
  removable_indices recent_start protected_ids i (msg ∷ rest) =
      let later = removable_indices recent_start protected_ids (suc i) rest in
      if leb recent_start i
      then later
      else if is_protected protected_ids msg
      then later
      else i ∷ later

  -- `estimate_tokens(&messages[idx])`; the indices of the loop are in range.
  unfoldable pub tokens_at : List Value → ℕ → ℕ
  tokens_at messages idx = elim (get_elem? messages idx) [ none ↦ 0 | some m ↦ estimate_tokens m ]

  -- The second loop: the set `removed`, as the indices inserted from here on.
  unfoldable pub removed_indices : List Value → ℕ → ℕ → List ℕ → List ℕ
  removed_indices messages target_tokens running_tokens [] = []
  removed_indices messages target_tokens running_tokens (idx ∷ indices) =
      let later =
        removed_indices messages target_tokens (running_tokens - tokens_at messages idx) indices in
      if leb running_tokens target_tokens then [] else idx ∷ later

  -- The last pass, from the index `i` on.
  unfoldable pub retain : List ℕ → ℕ → List Value → List Value
  retain removed i [] = []
  retain removed i (msg ∷ rest) =
      let later = retain removed (suc i) rest in if has_index removed i then later else msg ∷ later

  truncate_to : List Value → ℕ → List Text → ℕ → ℕ → List Value
  truncate_to messages target_tokens protected_ids keep_recent current_tokens =
      let recent_start = length messages - keep_recent in
      let indices = removable_indices recent_start protected_ids 0 messages in
      retain (removed_indices messages target_tokens current_tokens indices) 0 messages

  unfoldable pub summarize_and_truncate : List Value → ℕ → List Text → ℕ → List Value
  unfolding truncate_to
  summarize_and_truncate [] target_tokens protected_ids keep_recent = []
  summarize_and_truncate (m ∷ ms) target_tokens protected_ids keep_recent =
      let current_tokens = estimate_total_tokens (m ∷ ms) in
      if leb current_tokens target_tokens
      then m ∷ ms
      else truncate_to (m ∷ ms) target_tokens protected_ids keep_recent current_tokens
