-- ===== src/Broker/Policy.antt =====
-- crates/aos-mcp-broker/src/policy.rs: the policy decision point.
pub mod Verdict
pub mod Blind
pub mod Load
mod Tests
use unicity_aos.Base.{
  ℕ, Bool, true, false, not, ◌&&◌, ◌||◌, List, [], ◌∷◌, length, all, Option, none, some, ltb,
  if◌then◌else◌, codes,
}
use unicity_aos.Base.Text.{
  Text, text_eq, starts_with, contains, byte_len, is_empty, trim, is_whitespace,
}
use unicity_aos.Base.Result.{Result, ok, err, fail_if, ◌>>=◌, ◌>>◌}
use unicity_aos.Broker.Glob.{glob_match}
use unicity_aos.Base.Json.{Json, Shape}

pub data Effect : Type 0 where
  deny allow : Effect

pub data MatchOp : Type 0 where
  eq prefix contain glob : MatchOp

pub record ArgMatcher : Type 0 where
  pub pointer : Text
  pub op : MatchOp
  pub value : Text

pub record Rule : Type 0 where
  pub id : Text
  pub effect : Effect
  pub tool : Text
  pub conditions : List ArgMatcher

pub data Decision : Type 0 where
  allowed : Decision
  denied : Text → Decision

-- The text that a matcher compares: strings, numbers and booleans have one.
pub scalar_text : Shape → Option Text
scalar_text (Shape.string s) = some s
scalar_text (Shape.number s) = some s
scalar_text (Shape.bool true) = some (codes "true")
scalar_text (Shape.bool false) = some (codes "false")
scalar_text _ = none

pub op_holds : MatchOp → Text → Text → Bool
op_holds eq operand value = text_eq value operand
op_holds prefix operand value = starts_with value operand
op_holds contain operand value = contains value operand
op_holds glob operand value = glob_match operand value

pub effect_decision : Rule → Effect → Decision
effect_decision r deny = denied r.id
effect_decision r allow = allowed

module _ {Value : Type 0} (json : Json Value) where
  -- The text at a pointer of the arguments.
  pub visible_text : ArgMatcher → Value → Option Text
  visible_text m arguments = elim (json.pointer arguments m.pointer) [
    | none ↦ none
    | some target ↦ scalar_text (json.shape target)
  ]

  pub matcher_holds : ArgMatcher → Value → Bool
  matcher_holds m arguments = elim (visible_text m arguments) [
    | none ↦ false
    | some value ↦ op_holds m.op m.value value
  ]

  -- The two tests of a round of the loop in `evaluate`.
  pub rule_fires : Rule → Text → Value → Bool
  rule_fires r tool_name arguments =
      glob_match r.tool tool_name && all (λ m. matcher_holds m arguments) r.conditions

  unfoldable pub evaluate : List Rule → Text → Value → Decision
  evaluate [] tool_name arguments = allowed
  evaluate (r ∷ rules) tool_name arguments =
      let rest = evaluate rules tool_name arguments in
      if rule_fires r tool_name arguments then effect_decision r r.effect else rest

abbrev pub max_rules : ℕ
max_rules = 256

abbrev pub max_pattern_len : ℕ
max_pattern_len = 512

abbrev pub max_pointer_len : ℕ
max_pointer_len = 256

pub data LoadError : Type 0 where
  too_many_rules bad_rule_id bad_tool_glob bad_pointer oversize_matcher_value : LoadError
  env_read_error parse_error : LoadError

abbrev pub Checked : Type 0
Checked = Result LoadError (Unit {0})

pub validate_matchers : List ArgMatcher → Checked
validate_matchers [] = ok tt
validate_matchers (m ∷ ms) = do
  fail_if (is_empty m.pointer || ltb max_pointer_len (byte_len m.pointer)) bad_pointer
  fail_if (not (starts_with m.pointer (codes "/"))) bad_pointer
  fail_if (ltb max_pattern_len (byte_len m.value)) oversize_matcher_value
  validate_matchers ms

pub validate_rules : List Rule → Checked
validate_rules [] = ok tt
validate_rules (r ∷ rules) = do
  fail_if (is_empty r.id || ltb max_pattern_len (byte_len r.id)) bad_rule_id
  fail_if (is_empty r.tool || ltb max_pattern_len (byte_len r.tool)) bad_tool_glob
  validate_matchers r.conditions
  validate_rules rules

pub validate : List Rule → Checked
validate rules = do fail_if (ltb max_rules (length rules)) too_many_rules; validate_rules rules

-- `env::var_opt(POLICY_RULES_ENV)`: the setting, if it is set, or a host error.
pub data EnvRead : Type 0 where
  read : Option Text → EnvRead
  failed : EnvRead

-- The rules in force, and the reason that `audit_load_failure` publishes, if it is called.
pub record Loaded : Type 0 where
  pub rules : List Rule
  pub audit : Option LoadError

abbrev pub degraded : Option LoadError → Loaded
degraded reason = record { rules = []; audit = reason }

module _ (from_str : Text → Option (List Rule)) where
  pub check_loaded : Checked → List Rule → Loaded
  check_loaded (ok _) parsed = record { rules = parsed; audit = none }
  check_loaded (err reason) parsed = degraded (some reason)

  pub parse_rules : Text → Loaded
  unfolding check_loaded
  parse_rules raw = elim (from_str raw) [
    | none ↦ degraded (some parse_error)
    | some parsed ↦ check_loaded (validate parsed) parsed
  ]

  unfoldable pub load_rules : EnvRead → Loaded
  unfolding parse_rules
  load_rules (read (some s)) = if is_empty (trim s) then degraded none else parse_rules s
  load_rules (read none) = degraded none
  load_rules failed = degraded (some env_read_error)
