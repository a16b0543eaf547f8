-- ===== src/Broker/Policy/Tests.antt =====
-- Tests and instances for the policy decision point.
use unicity_aos.Base.{if◌then◌else◌, ◌≡◌, refl, ◌↔◌, [], ◌∷◌, none, some, codes}
use unicity_aos.Base.Text.{Text, text_eq, starts_with, contains}
use unicity_aos.Base.Result.{ok}
use unicity_aos.Broker.Glob.{glob_match}
use unicity_aos.Base.Json.{Json, Shape}
use unicity_aos.Broker.Policy.{
  Rule, deny, contain, allowed, denied, evaluate, validate, load_rules, read, visible_text,
  rule_fires, matcher_holds, op_holds, effect_decision, scalar_text,
}
use unicity_aos.Broker.Policy.Verdict.{Verdict, evaluate_iff}
use unicity_aos.Broker.Policy.Load.{InCaps, validate_iff, Outcome, load_rules-Outcome}

-- Values that are one text, found at the pointer "/command".
abbrev command_json : Json Text
command_json = record {
  shape = λ s. Shape.string s;
  pointer = λ s p. if text_eq p (codes "/command") then some s else none;
  get = λ s p. none;
  from_str = λ s. none;
  null_value = [];
  string_value = λ s. s;
}

abbrev no_rm : Rule
no_rm = record {
  id = codes "no-rm-rf";
  effect = deny;
  tool = codes "Bash";
  conditions = record { pointer = codes "/command"; op = contain; value = codes "rm -rf" } ∷ [];
}

abbrev no_url : Rule
no_url = record no_rm {
  conditions = record { pointer = codes "/url"; op = contain; value = codes "rm" } ∷ [];
}

evaluate_tests :
    (evaluate command_json (no_rm ∷ []) (codes "Bash") (codes "rm -rf /tmp")
      ≡ denied (codes "no-rm-rf"))
    × (evaluate command_json (no_rm ∷ []) (codes "Bash") (codes "ls") ≡ allowed)
    × (evaluate command_json (no_rm ∷ []) (codes "Write") (codes "rm -rf /tmp") ≡ allowed)
unfolding evaluate glob_match effect_decision scalar_text starts_with contains visible_text
    rule_fires matcher_holds op_holds text_eq
evaluate_tests = (refl, refl, refl)

evaluate_iff_example :
    (evaluate command_json (no_rm ∷ []) (codes "Bash") (codes "ls") ≡ allowed)
    ↔ Verdict command_json (codes "Bash") (codes "ls") (no_rm ∷ []) allowed
evaluate_iff_example = evaluate_iff command_json (codes "Bash") (codes "ls") (no_rm ∷ []) allowed

validate_iff_example : (validate (no_rm ∷ []) ≡ ok tt) ↔ InCaps (no_rm ∷ [])
validate_iff_example = validate_iff (no_rm ∷ [])

load_rules-Outcome_example :
    Outcome
      (λ s. some (no_rm ∷ []))
      (read (some (codes "[]")))
      (load_rules (λ s. some (no_rm ∷ [])) (read (some (codes "[]"))))
load_rules-Outcome_example = load_rules-Outcome (λ s. some (no_rm ∷ [])) (read (some (codes "[]")))
