-- ===== src/Broker/Cache.antt =====
-- The cache of tool descriptors, crates/aos-mcp-broker/src/cache.rs: freshness, merging under the cap,
-- and the updates by compare-and-swap. The cell is the value at the cache's key in the store. What
-- happens around the attempt `i` of an update is an input: whether the calls on the store fail, what
-- other writers do to the cell before the read and between it and the swap, and the clock.
pub mod Merge
pub mod Race
mod Tests
use unicity_aos.Base.{
  ℕ, zero, suc, ◌-◌, Bool, true, false, not, ◌&&◌, ◌||◌, List, [], ◌∷◌, length, map, Option, none,
  some, ltb, leb, ◌==◌, if◌then◌else◌,
}
use unicity_aos.Base.Text.{Text, text_eq, opt_text_eq}
use unicity_aos.Base.Sort.{text_ltb}

abbrev pub cache_ttl_ms : ℕ
cache_ttl_ms = 60_000

abbrev pub cas_max_retries : ℕ
cas_max_retries = 8

abbrev pub max_cached_tools : ℕ
max_cached_tools = 512

pub record McpToolDescriptor (Value : Type 0) : Type 0 where
  pub name : Text
  pub title : Option Text
  pub description : Text
  pub input_schema : Value
  pub capabilities : Option Value

-- The map by name, in the order of its keys.
abbrev pub Tools : Type 0 → Type 0
Tools Value = List (Text × McpToolDescriptor Value)

pub record CacheState (Value : Type 0) : Type 0 where
  pub updated_at_ms : ℕ
  pub tools : Tools Value

-- `Vec::is_empty`, `BTreeMap::is_empty`
abbrev is_nil : {A : Type 0} → List A → Bool
is_nil [] = true
is_nil (x ∷ xs) = false

module _ {Value : Type 0} where
  unfoldable pub contains_key : Text → Tools Value → Bool
  contains_key k [] = false
  contains_key k ((j, d) ∷ ts) = text_eq j k || contains_key k ts

  unfoldable pub lookup : Text → Tools Value → Option (McpToolDescriptor Value)
  lookup k [] = none
  lookup k ((j, d) ∷ ts) = if text_eq j k then some d else lookup k ts

  -- The value at a key that is there.
  unfoldable pub update : Text → McpToolDescriptor Value → Tools Value → Tools Value
  update k d [] = []
  update k d ((j, e) ∷ ts) =
      let rest = update k d ts in if text_eq j k then (j, d) ∷ ts else (j, e) ∷ rest

  -- A key that is not there, before the first greater one.
  unfoldable pub insert_new : Text → McpToolDescriptor Value → Tools Value → Tools Value
  insert_new k d [] = (k, d) ∷ []
  insert_new k d ((j, e) ∷ ts) =
      let rest = insert_new k d ts in if text_ltb k j then (k, d) ∷ (j, e) ∷ ts else (j, e) ∷ rest

  -- `BTreeMap::insert`
  unfoldable pub insert : Text → McpToolDescriptor Value → Tools Value → Tools Value
  insert k d ts = if contains_key k ts then update k d ts else insert_new k d ts

  unfoldable pub is_fresh : CacheState Value → ℕ → Bool
  is_fresh s now_ms =
      if now_ms == 0 || s.updated_at_ms == 0 || is_nil s.tools
      then false
      else ltb (now_ms - s.updated_at_ms) cache_ttl_ms

  abbrev pub as_vec : CacheState Value → List (McpToolDescriptor Value)
  as_vec s = map (λ (k, d). d) s.tools

  -- The loop of `upsert` over the incoming descriptors.
  unfoldable pub merge : List (McpToolDescriptor Value) → Tools Value → Tools Value
  merge [] ts = ts
  merge (d ∷ ds) ts =
      let full = leb max_cached_tools (length ts) && not (contains_key d.name ts) in
      merge ds (if full then ts else insert d.name d ts)

  -- The loop of `replace`.
  unfoldable pub fill : List (McpToolDescriptor Value) → Tools Value → Tools Value
  fill [] ts = ts
  fill (d ∷ ds) ts =
      let more = fill ds (insert d.name d ts) in
      if leb max_cached_tools (length ts) then ts else more

-- What happens around one attempt.
pub record Attempt : Type 0 where
  pub before : Option Text → Option Text
  pub read_fails : Bool
  pub others : Option Text → Option Text
  pub cas_fails : Bool
  pub clock : ℕ

-- `kv::get_bytes_opt(…).ok().flatten()`
abbrev pub read : Attempt → Option Text → Option Text
read a cell = if a.read_fails then none else cell

-- `serde_json` on the cache's state.
pub record Codec (Value : Type 0) : Type 0 where
  pub to_vec : CacheState Value → Option Text
  pub from_slice : Text → Option (CacheState Value)

module _ {Value : Type 0} (codec : Codec Value) where
  abbrev pub default_state : CacheState Value
  default_state = record { updated_at_ms = 0; tools = [] }

  unfoldable pub decoded : Option Text → CacheState Value
  decoded none = default_state
  decoded (some bytes) = elim (codec.from_slice bytes) [ none ↦ default_state | some s ↦ s ]

  unfoldable pub load : Attempt → Option Text → CacheState Value
  load a cell = decoded (read a cell)

  abbrev pub merged : Attempt → List (McpToolDescriptor Value) → Option Text → CacheState Value
  merged a incoming expected = record {
    updated_at_ms = a.clock;
    tools = merge incoming (decoded expected).tools;
  }

  -- The attempts from `i` on; the cell and the state that is returned.
  unfoldable pub upsert_from :
      ℕ
      → (ℕ → Attempt)
      → ℕ
      → List (McpToolDescriptor Value)
      → Option Text
      → Option Text × CacheState Value
  upsert_from zero attempts i incoming cell =
      let a = attempts i in (a.before cell, load a (a.before cell))
  upsert_from (suc retries) attempts i incoming cell =
      let a = attempts i in
      let seen = a.before cell in
      let expected = read a seen in
      let now = a.others seen in
      let later = upsert_from retries attempts (suc i) incoming now in
      let state = merged a incoming expected in
      elim (codec.to_vec state) [
        | none ↦ (seen, state)
        | some bytes ↦
            if a.cas_fails
            then (now, state)
            else if opt_text_eq now expected
            then (some bytes, state)
            else later
      ]

  unfoldable pub upsert :
      (ℕ → Attempt)
      → ℕ
      → List (McpToolDescriptor Value)
      → Option Text
      → Option Text × CacheState Value
  upsert attempts i incoming cell =
      if is_nil incoming
      then (let a = attempts i in (a.before cell, load a (a.before cell)))
      else upsert_from cas_max_retries attempts i incoming cell

  unfoldable pub replace :
      (ℕ → Attempt) → List (McpToolDescriptor Value) → Option Text → Option Text × CacheState Value
  replace attempts snapshot cell =
      let a = attempts 0 in
      let seen = a.before cell in
      let expected = read a seen in
      let now = a.others seen in
      let state : CacheState Value = record { updated_at_ms = a.clock; tools = fill snapshot [] } in
      let later = upsert attempts 1 snapshot now in
      elim (codec.to_vec state) [
        | none ↦ (seen, state)
        | some bytes ↦
            if a.cas_fails
            then (now, state)
            else if opt_text_eq now expected
            then (some bytes, state)
            else later
      ]

  unfoldable pub invalidate : Bool → Option Text → Option Text
  invalidate set_fails cell = elim (codec.to_vec default_state) [
    | none ↦ cell
    | some bytes ↦ if set_fails then cell else some bytes
  ]
