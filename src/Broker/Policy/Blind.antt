-- ===== src/Broker/Policy/Blind.antt =====
-- About rules that look at an argument without a text (crates/aos-mcp-broker/src/policy.rs).
use unicity_aos.Base.{◌≡◌, refl, false, List, [], ◌∷◌, ◌++◌, all, none, arith, inl, inr, All, ◌⊎◌}
use unicity_aos.Base.Text.{Text}
use unicity_aos.Base.Json.{Json}
use unicity_aos.Broker.Policy.{
  Rule, ArgMatcher, allow, allowed, effect_decision, visible_text, matcher_holds, rule_fires,
  evaluate,
}

module _ {Value : Type 0} (json : Json Value) (tool_name : Text) (arguments : Value) where
  abbrev Silent : Rule → Type 0
  Silent r = rule_fires json r tool_name arguments ≡ false

  -- A rule that looks at an argument which has no text cannot fire.
  abbrev pub IsBlind : Rule → Type 0
  IsBlind r =
      (before : List ArgMatcher) × (m : ArgMatcher) × (after : List ArgMatcher) × (r.conditions
        ≡ before ++ (m ∷ after))
      × (visible_text json m arguments ≡ none)

  all-false :
      (before : List ArgMatcher) (m : ArgMatcher) (after : List ArgMatcher)
      → visible_text json m arguments ≡ none
      → all (λ x. matcher_holds json x arguments) (before ++ (m ∷ after)) ≡ false
  unfolding matcher_holds
  all-false [] m after h = rw (h, matcher_holds)
  all-false (x ∷ before) m after h = ground (arith, all-false before m after h)

  IsBlind-Silent : (r : Rule) → IsBlind r → Silent r
  unfolding rule_fires
  IsBlind-Silent r (before, m, after, e, h) = ground (arith, all-false before m after h, e)

  -- A missing argument, or one that is null, an array or an object, never satisfies a deny: where
  -- every deny rule looks at such an argument, the call is allowed.
  pub evaluate_blind :
      (rules : List Rule)
      → All (λ r. (r.effect ≡ allow) ⊎ IsBlind r) rules
      → evaluate json rules tool_name arguments ≡ allowed
  unfolding evaluate effect_decision
  evaluate_blind [] a = refl
  evaluate_blind (r ∷ rules) (inl e, a) = ground (arith, evaluate_blind rules a)
  evaluate_blind (r ∷ rules) (inr b, a) = rw (IsBlind-Silent r b) (evaluate_blind rules a)
