-- ===== src/Broker/Policy/Load.antt =====
-- About `validate` and `load_rules` (crates/aos-mcp-broker/src/policy.rs).
use unicity_aos.Base.{
  ◌≡◌, ◌≢◌, ◌≤◌, refl, true, List, [], ◌∷◌, length, Option, none, some, arith, ◌↔◌, ◌⊎◌, inl, inr,
  All, codes, Option-cases, Bool-cases,
}
use unicity_aos.Base.Text.{Text, byte_len, is_empty, is_empty_iff, starts_with, trim}
use unicity_aos.Base.Result.{ok, err}
use unicity_aos.Broker.Policy.{
  Rule, ArgMatcher, max_rules, max_pattern_len, max_pointer_len, validate_matchers, validate_rules,
  validate, EnvRead, read, failed, Loaded, load_rules, parse_rules, LoadError, parse_error,
  env_read_error, Checked, degraded,
}

pub record MatcherInCaps (m : ArgMatcher) : Type 0 where
  pub pointer_some : m.pointer ≢ []
  pub pointer_cap : byte_len m.pointer ≤ max_pointer_len
  pub pointer_slash : starts_with m.pointer (codes "/") ≡ true
  pub value_cap : byte_len m.value ≤ max_pattern_len

pub record RuleInCaps (r : Rule) : Type 0 where
  pub id_some : r.id ≢ []
  pub id_cap : byte_len r.id ≤ max_pattern_len
  pub tool_some : r.tool ≢ []
  pub tool_cap : byte_len r.tool ≤ max_pattern_len
  pub matchers : All MatcherInCaps r.conditions

validate_matchers_sound :
    (ms : List ArgMatcher) → validate_matchers ms ≡ ok tt → All MatcherInCaps ms
unfolding validate_matchers
validate_matchers_sound [] h = tt
validate_matchers_sound (m ∷ ms) h =
    ground (arith, is_empty_iff m.pointer, validate_matchers_sound ms)

validate_matchers_complete :
    (ms : List ArgMatcher) → All MatcherInCaps ms → validate_matchers ms ≡ ok tt
unfolding validate_matchers
validate_matchers_complete [] h = refl
validate_matchers_complete (m ∷ ms) (c, h) =
    ground (arith, is_empty_iff m.pointer, validate_matchers_complete ms h)

validate_rules_sound : (rules : List Rule) → validate_rules rules ≡ ok tt → All RuleInCaps rules
unfolding validate_rules
validate_rules_sound [] h = tt
validate_rules_sound (r ∷ rules) h = ground (
  arith,
  is_empty_iff r.id,
  is_empty_iff r.tool,
  validate_matchers_sound r.conditions,
  validate_rules_sound rules,
)

validate_rules_complete : (rules : List Rule) → All RuleInCaps rules → validate_rules rules ≡ ok tt
unfolding validate_rules
validate_rules_complete [] h = refl
validate_rules_complete (r ∷ rules) (c, h) = ground (
  arith,
  is_empty_iff r.id,
  is_empty_iff r.tool,
  validate_matchers_complete r.conditions c.matchers,
  validate_rules_complete rules h,
)

abbrev pub InCaps : List Rule → Type 0
InCaps rules = (length rules ≤ max_rules) × All RuleInCaps rules

-- A rule set passes validation exactly if it is within every cap: the number of rules, the length of
-- each id, tool pattern, pointer and operand, and the shape of each pointer.
pub validate_iff : (rules : List Rule) → (validate rules ≡ ok tt) ↔ InCaps rules
unfolding validate
validate_iff rules = (
  λ h. ground (arith, validate_rules_sound rules),
  λ (c, h). ground (arith, validate_rules_complete rules h),
)

Checked-cases : (c : Checked) → (c ≡ ok tt) ⊎ ((reason : LoadError) × (c ≡ err reason))
Checked-cases (ok tt) = inl refl
Checked-cases (err reason) = inr (reason, refl)

module _ (from_str : Text → Option (List Rule)) where
  -- The setting is absent or blank.
  abbrev pub IsUnset : EnvRead → Type 0
  IsUnset e = (e ≡ read none) ⊎ ((s : Text) × (e ≡ read (some s)) × (trim s ≡ []))

  -- The setting cannot be read, or it is not blank and does not parse, or to a set outside the caps.
  abbrev pub IsBad : EnvRead → Type 0
  IsBad e =
      (e ≡ failed)
      ⊎ ((s : Text) × (e ≡ read (some s))
          × (trim s ≢ [])
          × ((rules : List Rule) → from_str s ≡ some rules → ¬ InCaps rules))

  pub data Outcome (e : EnvRead) (l : Loaded) : Type 0 where
    unset : IsUnset e → l ≡ degraded none → Outcome e l
    rejected : IsBad e → (reason : LoadError) → l ≡ degraded (some reason) → Outcome e l
    in_force :
        (s : Text) (rules : List Rule)
        → e ≡ read (some s)
        → trim s ≢ []
        → from_str s ≡ some rules
        → InCaps rules
        → l ≡ record { rules = rules; audit = none }
        → Outcome e l

  parse_rules-Outcome : (s : Text) → trim s ≢ [] → Outcome (read (some s)) (parse_rules from_str s)
  unfolding parse_rules
  parse_rules-Outcome s n = elim (Option-cases (from_str s)) [
    | inl h ↦ rejected (inr (s, refl, n, λ rules q. absurd (cc))) parse_error (rw (h, parse_rules))
    | inr (rules, h) ↦ elim (Checked-cases (validate rules)) [
      | inl v ↦ in_force s rules refl n h ((validate_iff rules).0 v) (rw (h, parse_rules) (rw v))
      | inr (reason, v) ↦
          rejected
            (inr (
              s,
              refl,
              n,
              λ other q c.
                  let same : other ≡ rules = cc in
                  absurd (cc ((validate_iff rules).1 (rw same at c))),
            ))
            reason (rw (h, parse_rules) (rw v))
    ]
  ]

  -- Loading a rule set has three outcomes: an unset or blank setting gives no rules and no audit; a
  -- setting that cannot be read, or is not blank and does not parse or exceeds a cap, gives no rules
  -- and an audit of a reason; any other gives the whole parsed set, within the caps, and no audit.
  pub load_rules-Outcome : (e : EnvRead) → Outcome e (load_rules from_str e)
  unfolding load_rules
  load_rules-Outcome (read none) = unset (inl refl) refl
  load_rules-Outcome failed = rejected (inl refl) env_read_error refl
  load_rules-Outcome (read (some s)) = elim (Bool-cases (is_empty (trim s))) [
    | inl h ↦ rw h (unset (inr (s, refl, (is_empty_iff (trim s)).0 h)) refl)
    | inr h ↦ rw h (parse_rules-Outcome s (λ e. cc ((is_empty_iff (trim s)).1 e)))
  ]
