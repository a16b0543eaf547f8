-- ===== src/Broker/Policy/Verdict.antt =====
-- About `evaluate` (crates/aos-mcp-broker/src/policy.rs).
use unicity_aos.Base.{
  ◌≡◌, refl, ap, sym, subst, ◌∙◌, true, false, some, codes, Option-cases, List, [], ◌∷◌, ◌++◌, all,
  arith, inl, inr, Bool-cases, All, ◌↔◌,
}
use unicity_aos.Base.Text.{Text, text_eq_iff, starts_with, contains}
use unicity_aos.Base.Json.{Json, Shape}
use unicity_aos.Broker.Glob.{glob_match}
use unicity_aos.Broker.Policy.{
  Rule, ArgMatcher, MatchOp, Effect, deny, allow, Decision, allowed, denied, scalar_text, op_holds,
  effect_decision, visible_text, matcher_holds, rule_fires, evaluate,
}

-- The text that a scalar has: a string or a number its own, a boolean its word.
pub data HasText : Shape → Text → Type 0 where
  of_string : (s : Text) → HasText (Shape.string s) s
  of_number : (s : Text) → HasText (Shape.number s) s
  of_true : HasText (Shape.bool true) (codes "true")
  of_false : HasText (Shape.bool false) (codes "false")

scalar_text-HasText : (shape : Shape) (t : Text) → scalar_text shape ≡ some t → HasText shape t
unfolding scalar_text
scalar_text-HasText (Shape.string s) t e = subst (HasText (Shape.string s)) (cc e) (of_string s)
scalar_text-HasText (Shape.number s) t e = subst (HasText (Shape.number s)) (cc e) (of_number s)
scalar_text-HasText (Shape.bool true) t e = subst (HasText (Shape.bool true)) (cc e) of_true
scalar_text-HasText (Shape.bool false) t e = subst (HasText (Shape.bool false)) (cc e) of_false
scalar_text-HasText Shape.null t e = absurd (cc e)
scalar_text-HasText Shape.array t e = absurd (cc e)
scalar_text-HasText Shape.object t e = absurd (cc e)

HasText-scalar_text : {shape : Shape} {t : Text} → HasText shape t → scalar_text shape ≡ some t
unfolding scalar_text
HasText-scalar_text (of_string s) = refl
HasText-scalar_text (of_number s) = refl
HasText-scalar_text of_true = refl
HasText-scalar_text of_false = refl

-- What an operator asks of a value and its operand.
abbrev pub Compares : MatchOp → Text → Text → Type 0
Compares MatchOp.eq operand value = value ≡ operand
Compares MatchOp.prefix operand value = starts_with value operand ≡ true
Compares MatchOp.contain operand value = contains value operand ≡ true
Compares MatchOp.glob operand value = glob_match operand value ≡ true

op_holds_iff :
    (op : MatchOp) (operand value : Text)
    → (op_holds op operand value ≡ true) ↔ Compares op operand value
unfolding op_holds
op_holds_iff MatchOp.eq operand value = text_eq_iff value operand
op_holds_iff MatchOp.prefix operand value = (λ e. e, λ e. e)
op_holds_iff MatchOp.contain operand value = (λ e. e, λ e. e)
op_holds_iff MatchOp.glob operand value = (λ e. e, λ e. e)

-- The decision of a rule that fires.
pub data Gives (r : Rule) (d : Decision) : Type 0 where
  denies : r.effect ≡ deny → d ≡ denied r.id → Gives r d
  allows : r.effect ≡ allow → d ≡ allowed → Gives r d

effect_decision-Gives : (r : Rule) (e : Effect) → r.effect ≡ e → Gives r (effect_decision r e)
unfolding effect_decision
effect_decision-Gives r deny q = denies q refl
effect_decision-Gives r allow q = allows q refl

Gives-effect_decision : {r : Rule} {d : Decision} → Gives r d → effect_decision r r.effect ≡ d
unfolding effect_decision
Gives-effect_decision {r} (denies q e) = rw q (sym e)
Gives-effect_decision {r} (allows q e) = rw q (sym e)

module _ {Value : Type 0} (json : Json Value) (tool_name : Text) (arguments : Value) where
  -- The argument at the matcher's pointer has a text that compares to the operand.
  abbrev pub Holds : ArgMatcher → Type 0
  Holds m =
      (target : Value) × (value : Text) × (json.pointer arguments m.pointer ≡ some target)
      × HasText (json.shape target) value
      × Compares m.op m.value value

  -- The tool pattern matches the name, and all matchers hold.
  abbrev pub Fires : Rule → Type 0
  Fires r = (glob_match r.tool tool_name ≡ true) × All Holds r.conditions

  -- The decision of an ordered rule set: that of the first rule that fires, or to allow.
  pub data Verdict (rules : List Rule) (d : Decision) : Type 0 where
    unmatched : All (λ r. ¬ Fires r) rules → d ≡ allowed → Verdict rules d
    first :
        (before : List Rule) (r : Rule) (after : List Rule)
        → rules ≡ before ++ (r ∷ after)
        → All (λ x. ¬ Fires x) before
        → Fires r
        → Gives r d
        → Verdict rules d

  matcher_holds-Holds : (m : ArgMatcher) → matcher_holds json m arguments ≡ true → Holds m
  unfolding matcher_holds visible_text
  matcher_holds-Holds m h = elim (Option-cases (json.pointer arguments m.pointer)) [
    | inl e ↦ absurd (ground (arith, e, h))
    | inr (target, e) ↦ elim (Option-cases (scalar_text (json.shape target))) [
      | inl q ↦ absurd (ground (arith, e, q, h))
      | inr (value, q) ↦ (
        target,
        value,
        e,
        scalar_text-HasText _ value q,
        (op_holds_iff m.op m.value value).0 (ground (arith, e, q, h)),
      )
    ]
  ]

  Holds-matcher_holds : (m : ArgMatcher) → Holds m → matcher_holds json m arguments ≡ true
  unfolding matcher_holds visible_text
  Holds-matcher_holds m (target, value, e, t, c) =
      rw (matcher_holds, visible_text, e, HasText-scalar_text t)
        ((op_holds_iff m.op m.value value).1 c)

  all-Holds :
      (ms : List ArgMatcher) → all (λ m. matcher_holds json m arguments) ms ≡ true → All Holds ms
  all-Holds [] h = tt
  all-Holds (m ∷ ms) h = elim (Bool-cases (matcher_holds json m arguments)) [
    | inl q ↦ (matcher_holds-Holds m q, all-Holds ms (ground (arith, q, h)))
    | inr q ↦ absurd (ground (arith, q, h))
  ]

  Holds-all :
      (ms : List ArgMatcher) → All Holds ms → all (λ m. matcher_holds json m arguments) ms ≡ true
  Holds-all [] h = refl
  Holds-all (m ∷ ms) (h, rest) = ground (arith, Holds-matcher_holds m h, Holds-all ms rest)

  rule_fires-Fires : (r : Rule) → rule_fires json r tool_name arguments ≡ true → Fires r
  unfolding rule_fires
  rule_fires-Fires r h = (ground (arith, h), all-Holds r.conditions (ground (arith, h)))

  Fires-rule_fires : (r : Rule) → Fires r → rule_fires json r tool_name arguments ≡ true
  unfolding rule_fires
  Fires-rule_fires r (g, h) = ground (arith, g, Holds-all r.conditions h)

  abbrev Silent : Rule → Type 0
  Silent r = rule_fires json r tool_name arguments ≡ false

  Silent-not : (r : Rule) → Silent r → ¬ Fires r
  Silent-not r s f = cc (s, Fires-rule_fires r f)

  not-Silent : (r : Rule) → ¬ Fires r → Silent r
  not-Silent r n = elim (Bool-cases (rule_fires json r tool_name arguments)) [
    | inl h ↦ absurd (n (rule_fires-Fires r h))
    | inr h ↦ h
  ]

  Verdict-cons :
      {r : Rule} {rules : List Rule} {d : Decision}
      → Silent r
      → Verdict rules d
      → Verdict (r ∷ rules) d
  Verdict-cons {r} s (unmatched a e) = unmatched (Silent-not r s, a) e
  Verdict-cons {r} s (first before x after q a f e) =
      first (r ∷ before) x after (ap (◌∷◌ r) q) (Silent-not r s, a) f e

  pub evaluate-Verdict :
      (rules : List Rule) → Verdict rules (evaluate json rules tool_name arguments)
  unfolding evaluate
  evaluate-Verdict [] = unmatched tt refl
  evaluate-Verdict (r ∷ rules) = elim (Bool-cases (rule_fires json r tool_name arguments)) [
    | inl h ↦
        rw h
          (first [] r rules refl tt (rule_fires-Fires r h) (effect_decision-Gives r r.effect refl))
    | inr h ↦ rw h (Verdict-cons h (evaluate-Verdict rules))
  ]

  evaluate-append :
      (before rules : List Rule)
      → All (λ r. ¬ Fires r) before
      → evaluate json (before ++ rules) tool_name arguments
        ≡ evaluate json rules tool_name arguments
  unfolding evaluate
  evaluate-append [] rules a = refl
  evaluate-append (r ∷ before) rules (s, a) = rw (not-Silent r s) (evaluate-append before rules a)

  evaluate_unmatched :
      (rules : List Rule)
      → All (λ r. ¬ Fires r) rules
      → evaluate json rules tool_name arguments ≡ allowed
  unfolding evaluate
  evaluate_unmatched [] a = refl
  evaluate_unmatched (r ∷ rules) (s, a) = rw (not-Silent r s) (evaluate_unmatched rules a)

  evaluate_first :
      (r : Rule) (after : List Rule)
      → Fires r
      → evaluate json (r ∷ after) tool_name arguments ≡ effect_decision r r.effect
  unfolding evaluate
  evaluate_first r after f = rw (Fires-rule_fires r f)

  Verdict-evaluate :
      {rules : List Rule} {d : Decision}
      → Verdict rules d
      → evaluate json rules tool_name arguments ≡ d
  Verdict-evaluate (unmatched a e) = evaluate_unmatched _ a ∙ sym e
  Verdict-evaluate (first before r after q a f g) =
      rw q
        (evaluate-append before (r ∷ after) a ∙ evaluate_first r after f ∙ Gives-effect_decision g)

  -- `evaluate` gives a decision exactly if it is that of the first rule whose tool pattern matches
  -- the name and whose matchers all hold of the arguments, a denial with the rule's id or to allow,
  -- or if there is no such rule and the decision is to allow.
  pub evaluate_iff :
      (rules : List Rule) (d : Decision)
      → (evaluate json rules tool_name arguments ≡ d) ↔ Verdict rules d
  evaluate_iff rules d = (λ e. subst (Verdict rules) e (evaluate-Verdict rules), Verdict-evaluate)
