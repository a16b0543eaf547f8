-- ===== src/Broker/Discovery/Tests.antt =====
-- Tests and instances for the discovery of tools.
use unicity_aos.Base.{
  ℕ, zero, suc, ◌≤◌, ◌≡◌, refl, true, false, List, [], ◌∷◌, All, Option, none, some, codes,
  if◌then◌else◌,
}
use unicity_aos.Base.Text.{Text, text_eq, byte_len, is_empty, has_text}
use unicity_aos.Base.Json.{Json, Shape}
use unicity_aos.Broker.Topics.{is_valid_tool_name}
use unicity_aos.Broker.Cache.{McpToolDescriptor}
use unicity_aos.Broker.Discovery.{
  Describe, DescribeBus, collect_from, discovery_fuel, discovery_timeout_ms, discover, dedup,
  retain_new, collected, parse_describe_response, tools_of, valid_descriptors, is_valid_descriptor,
  remap_input_schema, fits,
}
use unicity_aos.Broker.Discovery.Collected.{IsValid, collect_from_lem}
use unicity_aos.Broker.Discovery.Distinct.{count, find_last, dedup_lem}

-- A response is the name of its one tool.
abbrev name_json : Json Text
name_json = record {
  shape = λ s. Shape.string s;
  pointer = λ s p. none;
  get = λ s field. if text_eq field (codes "tools") then some s else none;
  from_str = λ s. some s;
  null_value = [];
  string_value = λ s. s;
}

abbrev described : Text → McpToolDescriptor Text
described s = record {
  name = s;
  title = none;
  description = [];
  input_schema = [];
  capabilities = none;
}

abbrev name_describe : Describe Text
name_describe = record {
  as_array = λ s. some (s ∷ []);
  contains_key = λ s k. true;
  remove = λ s k. none;
  insert = λ s k v. s;
  vec_len = λ s. some 2;
  to_descriptor = λ s. some (described s);
}

-- An empty slice, two answers, and silence.
abbrev answers : ℕ → Option (List Text)
answers (suc zero) = some (codes "fs.read" ∷ codes "../x" ∷ [])
answers (suc (suc zero)) = some (codes "fs.list" ∷ codes "fs.read" ∷ [])
answers _ = some []

abbrev bus : DescribeBus
bus = record { subscribes = true; publishes = true; polls = answers }

discover_test :
    discover name_json name_describe bus
    ≡ described (codes "fs.list") ∷ described (codes "fs.read") ∷ []
unfolding discover collect_from dedup retain_new collected parse_describe_response tools_of
    valid_descriptors is_valid_descriptor remap_input_schema fits is_valid_tool_name byte_len
    is_empty text_eq has_text
discover_test = refl

collect_from_lem_example :
    (out : List (McpToolDescriptor Text)) × (collect_from name_json name_describe discovery_fuel
        answers 0 discovery_timeout_ms false []
      ≡ some out)
    × All (IsValid name_json name_describe) out
collect_from_lem_example = collect_from_lem name_json name_describe answers

abbrev twice : List (McpToolDescriptor Text)
twice = described (codes "a") ∷ described (codes "b") ∷ described (codes "a") ∷ []

dedup_lem_example :
    (count (codes "a") (dedup twice) ≤ 1)
    × (find_last (codes "a") (dedup twice) ≡ find_last (codes "a") twice)
dedup_lem_example = dedup_lem twice (codes "a")
