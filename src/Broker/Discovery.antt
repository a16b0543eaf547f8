-- ===== src/Broker/Discovery.antt =====
-- The discovery of tools, crates/aos-mcp-broker/src/discovery.rs: the gate on descriptors, the fan-out
-- that collects them, and the snapshot that falls back to the cache. The bus is an input: whether the
-- subscription and the publication succeed, and what each slice delivers.
pub mod Collected
pub mod Distinct
mod Tests
use unicity_aos.Base.{
  ℕ, zero, suc, ◌-◌, min, Bool, true, false, not, ◌&&◌, ◌||◌, List, [], ◌∷◌, ◌++◌, take, all,
  Option, none, some, ltb, leb, ◌==◌, if◌then◌else◌, codes,
}
use mathlib.Core.List.{reverse}
use unicity_aos.Base.Text.{Text, byte_len, has_text}
use unicity_aos.Base.Json.{Json}
use unicity_aos.Broker.Topics.{is_valid_tool_name}
use unicity_aos.Broker.Cache.{
  McpToolDescriptor, CacheState, Codec, Attempt, is_fresh, as_vec, load, upsert, replace,
}

abbrev pub discovery_timeout_ms : ℕ
discovery_timeout_ms = 2500

abbrev pub discovery_slice_ms : ℕ
discovery_slice_ms = 100

-- A round for each slice of the window.
abbrev pub discovery_fuel : ℕ
discovery_fuel = 25

abbrev pub max_description_len : ℕ
max_description_len = 4096

abbrev pub max_input_schema_bytes : ℕ
max_input_schema_bytes = 16_384

abbrev pub max_capabilities_bytes : ℕ
max_capabilities_bytes = 2048

abbrev pub max_tools_per_response : ℕ
max_tools_per_response = 256

-- What the file uses of `serde_json` besides: the elements of an array, the parts of an object, the
-- length of a serialized value, and the parser of a descriptor.
pub record Describe (Value : Type 0) : Type 0 where
  pub as_array : Value → Option (List Value)
  pub contains_key : Value → Text → Bool
  pub remove : Value → Text → Option (Value × Value)
  pub insert : Value → Text → Value → Value
  pub vec_len : Value → Option ℕ
  pub to_descriptor : Value → Option (McpToolDescriptor Value)

pub record DescribeBus : Type 0 where
  pub subscribes : Bool
  pub publishes : Bool
  pub polls : ℕ → Option (List Text)

abbrev pub opt_within : {A : Type 0} → (A → Bool) → Option A → Bool
opt_within p none = true
opt_within p (some a) = p a

module _ {Value : Type 0} (json : Json Value) (describe : Describe Value) where
  -- `json_byte_len(…) <= cap`: a value that does not serialize is over every cap.
  unfoldable pub fits : ℕ → Value → Bool
  fits cap value = elim (describe.vec_len value) [ none ↦ false | some n ↦ leb n cap ]

  unfoldable pub is_valid_descriptor : McpToolDescriptor Value → Bool
  is_valid_descriptor d =
      is_valid_tool_name d.name
      && leb (byte_len d.description) max_description_len
      && opt_within (λ t. leb (byte_len t) max_description_len) d.title
      && fits max_input_schema_bytes d.input_schema
      && opt_within (fits max_capabilities_bytes) d.capabilities

  unfoldable pub remap_input_schema : Value → Value
  remap_input_schema value =
      if describe.contains_key value (codes "inputSchema")
      then value
      else elim (describe.remove value (codes "input_schema")) [
        | none ↦ value
        | some (schema, rest) ↦ describe.insert rest (codes "inputSchema") schema
      ]

  -- The loop of `parse_describe_response`.
  unfoldable pub valid_descriptors : List Value → List (McpToolDescriptor Value)
  valid_descriptors [] = []
  valid_descriptors (raw ∷ rest) =
      let later = valid_descriptors rest in
      elim (describe.to_descriptor (remap_input_schema raw)) [
        | none ↦ later
        | some d ↦ if is_valid_descriptor d then d ∷ later else later
      ]

  -- The `tools` of a response, at the top or under `data`.
  unfoldable pub tools_of : Value → Option Value
  tools_of value = elim (json.get value (codes "tools")) [
    | some t ↦ some t
    | none ↦ elim (json.get value (codes "data")) [
      | none ↦ none
      | some d ↦ json.get d (codes "tools")
    ]
  ]

  descriptors_in : Option Value → List (McpToolDescriptor Value)
  descriptors_in none = []
  descriptors_in (some t) = elim (describe.as_array t) [
    | none ↦ []
    | some tools ↦ valid_descriptors (take max_tools_per_response tools)
  ]

  unfoldable pub parse_describe_response : Value → List (McpToolDescriptor Value)
  unfolding descriptors_in
  parse_describe_response value = descriptors_in (tools_of value)

  -- What one slice's messages add.
  unfoldable pub collected : List Text → List (McpToolDescriptor Value)
  collected [] = []
  collected (payload ∷ rest) =
      let later = collected rest in
      elim (json.from_str payload) [ none ↦ later | some v ↦ parse_describe_response v ++ later ]

  -- The loop from the slice `i` on: it ends at the first quiet slice after an answer, or with the
  -- window; `none` means that the fuel ran out.
  unfoldable pub collect_from :
      ℕ
      → (ℕ → Option (List Text))
      → ℕ
      → ℕ
      → Bool
      → List (McpToolDescriptor Value)
      → Option (List (McpToolDescriptor Value))
  collect_from zero polls i remaining seen_any acc = none
  collect_from (suc fuel) polls i remaining seen_any acc =
      let left = remaining - min remaining discovery_slice_ms in
      let quiet = collect_from fuel polls (suc i) left seen_any acc in
      elim (polls i) [
        | some (m ∷ ms) ↦
            let acc' = acc ++ collected (m ∷ ms) in
            if left == 0 then some acc' else collect_from fuel polls (suc i) left true acc'
        | _ ↦ if seen_any then some acc else if left == 0 then some acc else quiet
      ]

-- `acc.retain(|d| seen.insert(d.name.clone()))`
unfoldable pub retain_new :
    {Value : Type 0} → List Text → List (McpToolDescriptor Value) → List (McpToolDescriptor Value)
retain_new seen [] = []
retain_new seen (d ∷ ds) =
    let skipped = retain_new seen ds in
    let kept = retain_new (d.name ∷ seen) ds in if has_text seen d.name then skipped else d ∷ kept

-- The last descriptor of each name.
unfoldable pub dedup :
    {Value : Type 0} → List (McpToolDescriptor Value) → List (McpToolDescriptor Value)
dedup acc = reverse (retain_new [] (reverse acc))

abbrev or_none : {A : Type 0} → Option (List A) → List A
or_none none = []
or_none (some xs) = xs

module _ {Value : Type 0} (json : Json Value) (describe : Describe Value) where
  unfoldable pub discover : DescribeBus → List (McpToolDescriptor Value)
  discover bus =
      if not bus.subscribes || not bus.publishes
      then []
      else dedup (
          or_none
            (collect_from json describe discovery_fuel bus.polls 0 discovery_timeout_ms false []))

  -- `collect_snapshot`: a fresh cache answers; a fan-out that found nothing keeps the cache.
  unfoldable pub collect_snapshot :
      Codec Value
      → Attempt
      → (ℕ → Attempt)
      → ℕ
      → DescribeBus
      → Option Text
      → Option Text × List (McpToolDescriptor Value)
  collect_snapshot codec first attempts now bus cell =
      let seen = first.before cell in
      let cached = load codec first seen in
      if is_fresh cached now then (seen, as_vec cached) else elim (discover bus) [
        | [] ↦ (seen, as_vec cached)
        | d ∷ ds ↦
            let (cell', state) = replace codec attempts (d ∷ ds) seen in (cell', as_vec state)
      ]
