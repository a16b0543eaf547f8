-- ===== src/Context/Tests.antt =====
-- Tests and instances for the compaction strategy: messages are texts that are their own ids.
use unicity_aos.Base.{
  ◌-◌, ◌≤◌, ◌≡◌, refl, arith, List, [], ◌∷◌, none, some, codes, if◌then◌else◌, ◌⊎◌,
}
use unicity_aos.Base.Text.{has_text, Text, text_eq, byte_len}
use unicity_aos.Base.Json.{Json, Shape, as_str}
use unicity_aos.Context.{
  summarize_and_truncate, estimate_tokens, estimate_total_tokens, div_ceil4, saturating_add,
  removable_indices, removed_indices, retain, has_index, is_protected, message_id, tokens_at,
}
use unicity_aos.Context.Reference.{trim_oldest, summarize_and_truncate_lem}
use unicity_aos.Context.Retained.{Retained, summarize_and_truncate-Retained}
use unicity_aos.Context.Budget.{sum_tokens, essential, summarize_and_truncate_budget}

abbrev id_json : Json Text
id_json = record {
  shape = λ s. Shape.string s;
  pointer = λ s p. none;
  get = λ s field. if text_eq field (codes "id") then some s else none;
  from_str = λ s. none;
  null_value = [];
  string_value = λ s. s;
}

abbrev self : Text → Text
self s = s

abbrev talk : List Text
talk = codes "first" ∷ codes "second" ∷ codes "third" ∷ codes "last" ∷ []

abbrev trimmed_talk : List Text
trimmed_talk = summarize_and_truncate id_json self talk 5 (codes "first" ∷ []) 1

truncate_tests : trimmed_talk ≡ codes "first" ∷ codes "third" ∷ codes "last" ∷ []
unfolding summarize_and_truncate estimate_tokens estimate_total_tokens div_ceil4 saturating_add
    removable_indices removed_indices retain has_index has_text is_protected message_id tokens_at
    byte_len text_eq as_str
truncate_tests = refl

summarize_and_truncate_lem_example :
    trimmed_talk
    ≡ trim_oldest id_json self
        (4 - 1)
        (codes "first" ∷ [])
        5
        0
        (estimate_total_tokens id_json self talk)
        talk
summarize_and_truncate_lem_example =
    summarize_and_truncate_lem id_json self talk 5 (codes "first" ∷ []) 1

summarize_and_truncate-Retained_example :
    Retained id_json self (4 - 1) (codes "first" ∷ []) 0 talk trimmed_talk
summarize_and_truncate-Retained_example =
    summarize_and_truncate-Retained id_json self talk 5 (codes "first" ∷ []) 1

summarize_and_truncate_budget_example :
    (sum_tokens id_json self trimmed_talk ≤ 5)
    ⊎ (trimmed_talk ≡ essential id_json self (4 - 1) (codes "first" ∷ []) 5 0 talk)
unfolding estimate_tokens div_ceil4 byte_len
summarize_and_truncate_budget_example =
    summarize_and_truncate_budget id_json self talk 5 (codes "first" ∷ []) 1 (omega arith)
