-- ===== src/Broker/Discovery/Collected.antt =====
-- About the fan-out of `discover` (crates/aos-mcp-broker/src/discovery.rs) and its gate.
use unicity_aos.Base.{
  ◌⊎◌, ℕ, zero, suc, ◌-◌, ◌*◌, min, ◌≡◌, refl, ◌∙◌, Bool, true, false, not, ◌||◌, List, [], ◌∷◌,
  ◌++◌, take, All, All-append, All-reverse, Option, none, some, arith, ◌==◌, if◌then◌else◌,
  Bool-cases, Option-cases, inl, inr,
}
use mathlib.Core.List.{reverse}
use unicity_aos.Base.Text.{Text, has_text}
use unicity_aos.Base.Json.{Json}
use unicity_aos.Broker.Cache.{McpToolDescriptor}
use unicity_aos.Broker.Discovery.{
  Describe, DescribeBus, is_valid_descriptor, remap_input_schema, valid_descriptors, descriptors_in,
  parse_describe_response, tools_of, collected, collect_from, retain_new, dedup, discover,
  discovery_fuel, discovery_timeout_ms, max_tools_per_response,
}

module _ {Value : Type 0} (json : Json Value) (describe : Describe Value) where
  abbrev pub IsValid : McpToolDescriptor Value → Type 0
  IsValid d = is_valid_descriptor json describe d ≡ true

  valid_descriptors-IsValid :
      (raws : List Value) → All IsValid (valid_descriptors json describe raws)
  unfolding valid_descriptors
  valid_descriptors-IsValid [] = tt
  valid_descriptors-IsValid (raw ∷ rest) =
      elim (Option-cases (describe.to_descriptor (remap_input_schema json describe raw))) [
        | inl e ↦ rw (e, valid_descriptors) (valid_descriptors-IsValid rest)
        | inr (d, e) ↦ elim (Bool-cases (is_valid_descriptor json describe d)) [
          | inl v ↦ rw (e, v, valid_descriptors) (v, valid_descriptors-IsValid rest)
          | inr v ↦ rw (e, v, valid_descriptors) (valid_descriptors-IsValid rest)
        ]
      ]

  descriptors_in-IsValid : (o : Option Value) → All IsValid (descriptors_in json describe o)
  unfolding descriptors_in
  descriptors_in-IsValid none = tt
  descriptors_in-IsValid (some t) = elim (Option-cases (describe.as_array t)) [
    | inl e ↦ rw (e, descriptors_in) tt
    | inr (tools, e) ↦
        rw (e, descriptors_in) (valid_descriptors-IsValid (take max_tools_per_response tools))
  ]

  collected-IsValid : (payloads : List Text) → All IsValid (collected json describe payloads)
  unfolding collected parse_describe_response
  collected-IsValid [] = tt
  collected-IsValid (p ∷ ps) = elim (Option-cases (json.from_str p)) [
    | inl e ↦ rw (e, collected) (collected-IsValid ps)
    | inr (v, e) ↦
        rw (e, collected)
          (All-append IsValid _ _ (descriptors_in-IsValid (tools_of json describe v))
            (collected-IsValid ps))
  ]

  retain_new-All :
      (P : McpToolDescriptor Value → Type 0) (ds : List (McpToolDescriptor Value))
      (seen : List Text)
      → All P ds
      → All P (retain_new seen ds)
  unfolding retain_new
  retain_new-All P [] seen a = tt
  retain_new-All P (d ∷ ds) seen (p, a) = elim (Bool-cases (has_text seen d.name)) [
    | inl e ↦ rw (e, retain_new) (retain_new-All P ds seen a)
    | inr e ↦ rw (e, retain_new) (p, retain_new-All P ds (d.name ∷ seen) a)
  ]

  dedup-All :
      (P : McpToolDescriptor Value → Type 0) (ds : List (McpToolDescriptor Value))
      → All P ds
      → All P (dedup ds)
  unfolding dedup
  dedup-All P ds a = All-reverse P _ (retain_new-All P (reverse ds) [] (All-reverse P ds a))

  module _ (polls : ℕ → Option (List Text)) where
    -- The loop over `n` slices of 100 ms ends with valid descriptors.
    abbrev Collects : ℕ → ℕ → Bool → List (McpToolDescriptor Value) → Type 0
    Collects n i seen_any acc =
        (out : List (McpToolDescriptor Value)) × (collect_from json describe (suc n) polls i
            (suc n * 100) seen_any acc
          ≡ some out)
        × All IsValid out

    answered :
        (fuel n i : ℕ) (seen_any : Bool) (acc : List (McpToolDescriptor Value)) (m : Text)
        (ms : List Text)
        → polls i ≡ some (m ∷ ms)
        → collect_from json describe (suc fuel) polls i (suc n * 100) seen_any acc ≡ (
            if n * 100 == 0
            then some (acc ++ collected json describe (m ∷ ms))
            else collect_from json describe fuel polls
                (suc i)
                (n * 100)
                true
                (acc ++ collected json describe (m ∷ ms)))
    unfolding collect_from
    answered fuel n i seen_any acc m ms e =
        let left : suc n * 100 - min (suc n * 100) 100 ≡ n * 100 = omega arith in
        rw (e, collect_from) (rw left refl)

    Quiet : ℕ → Type 0
    Quiet i = (polls i ≡ none) ⊎ (polls i ≡ some [])

    unanswered :
        (fuel n i : ℕ) (seen_any : Bool) (acc : List (McpToolDescriptor Value))
        → Quiet i
        → collect_from json describe (suc fuel) polls i (suc n * 100) seen_any acc ≡ (
            if seen_any
            then some acc
            else if n * 100 == 0
            then some acc
            else collect_from json describe fuel polls (suc i) (n * 100) seen_any acc)
    unfolding collect_from Quiet
    unanswered fuel n i seen_any acc q =
        let left : suc n * 100 - min (suc n * 100) 100 ≡ n * 100 = omega arith in
        elim q [
          | inl e ↦ rw (e, collect_from) (rw left refl)
          | inr e ↦ rw (e, collect_from) (rw left refl)
        ]

    polls-cases : (i : ℕ) → Quiet i ⊎ ((m : Text) × (ms : List Text) × (polls i ≡ some (m ∷ ms)))
    unfolding Quiet
    polls-cases i = go (polls i) refl
      where
        go :
            (o : Option (List Text))
            → polls i ≡ o
            → Quiet i ⊎ ((m : Text) × (ms : List Text) × (polls i ≡ some (m ∷ ms)))
        go none e = inl (inl e)
        go (some []) e = inl (inr e)
        go (some (m ∷ ms)) e = inr (m, ms, e)

    collect_from-IsValid :
        (n i : ℕ) (seen_any : Bool) (acc : List (McpToolDescriptor Value))
        → All IsValid acc
        → Collects n i seen_any acc
    collect_from-IsValid zero i seen_any acc a = elim (polls-cases i) [
      | inl q ↦ elim (Bool-cases seen_any) [
        | inl s ↦ (acc, unanswered 0 0 i seen_any acc q ∙ rw s refl, a)
        | inr s ↦ (acc, unanswered 0 0 i seen_any acc q ∙ rw s refl, a)
      ]
      | inr (m, ms, e) ↦ (
        acc ++ collected json describe (m ∷ ms),
        answered 0 0 i seen_any acc m ms e,
        All-append IsValid acc _ a (collected-IsValid (m ∷ ms)),
      )
    ]
    collect_from-IsValid (suc n) i seen_any acc a =
        let more : (suc n * 100 == 0) ≡ false = ground arith in
        elim (polls-cases i) [
          | inl q ↦ elim (Bool-cases seen_any) [
            | inl s ↦ (acc, unanswered (suc n) (suc n) i seen_any acc q ∙ rw s refl, a)
            | inr s ↦
                let (out, e, v) = collect_from-IsValid n (suc i) false acc a in
                (out, unanswered (suc n) (suc n) i seen_any acc q ∙ rw (s, more) e, v)
          ]
          | inr (m, ms, e) ↦
              let grown = All-append IsValid acc _ a (collected-IsValid (m ∷ ms)) in
              let (out, f, v) =
                collect_from-IsValid n (suc i) true (acc ++ collected json describe (m ∷ ms))
                  grown in
              (out, answered (suc n) (suc n) i seen_any acc m ms e ∙ rw more f, v)
        ]

  -- The fan-out ends within its fuel, whatever the slices deliver: 25 slices of 100 ms make its window.
  -- Every descriptor that it collects passes the gate: a clean name and all parts within their caps.
  pub collect_from_lem :
      (polls : ℕ → Option (List Text))
      → (out : List (McpToolDescriptor Value)) × (collect_from json describe discovery_fuel polls 0
            discovery_timeout_ms false []
          ≡ some out)
        × All IsValid out
  collect_from_lem polls = collect_from-IsValid polls 24 0 false [] tt

  -- Every tool that a discovery returns passes the gate on descriptors.
  pub discover-IsValid : (bus : DescribeBus) → All IsValid (discover json describe bus)
  unfolding discover
  discover-IsValid bus = elim (Bool-cases (not bus.subscribes || not bus.publishes)) [
    | inl e ↦ rw (e, discover) tt
    | inr e ↦
        let (out, f, v) = collect_from_lem bus.polls in
        rw (e, discover) (rw f (dedup-All IsValid out v))
  ]
