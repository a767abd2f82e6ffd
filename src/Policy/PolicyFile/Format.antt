-- ===== src/Policy/PolicyFile/Format.antt =====
-- The format of policy files that the docstring of `load_policy_file` of src/tesera/policy.py gives.
use tesera.Common.{
  ◌≡◌, ◌⊎◌, Bool, true, not, Option, none, some, List, [], ◌∷◌, String, ◌&&◌, all_of, str_eq,
}
use tesera.Json.{null, find, get, Json, Items, Fields, str, arr, obj, nil, cons}
use tesera.Policy.Rules.{Rule, RuleProvider, is_decision}
use tesera.Policy.PolicyFile.{is_risk_level, all_keys, is_rule_key, is_policy_key}

-- The risks are levels, if a rule restricts them.
abbrev pub are_levels : Option (List String) → Bool
are_levels none = true
are_levels (some risks) = all_of is_risk_level risks

-- A rule names a glob, decides with one of the two words, and restricts risks to the four levels.
abbrev pub is_rule : Rule → Bool
is_rule rule = not (str_eq rule.action "") && (is_decision rule.decision && are_levels rule.risks)

abbrev pub is_policy : RuleProvider → Bool
is_policy p = is_decision p.default && all_of is_rule p.rules

abbrev pub print_texts : List String → Items
print_texts [] = nil
print_texts (s ∷ rest) = cons (str s) (print_texts rest)

-- `risks` is absent or null, or a list of levels.
abbrev pub DescribesRisks : Json → Option (List String) → Type 0
DescribesRisks v none = v ≡ null
DescribesRisks v (some rs) = (v ≡ arr (print_texts rs)) × (all_of is_risk_level rs ≡ true)

-- A text under a key, or the one that an absent key stands for.
abbrev pub TextOr : String → Option Json → String → Type 0
TextOr default o s = (o ≡ some (str s)) ⊎ ((o ≡ none) × (s ≡ default))

-- An entry that gives a rule, with its keys in any order: `risks` and `reason` may be left out.
pub record DescribesRule (entry : Fields) (rule : Rule) : Type 0 where
  pub only_keys : all_keys is_rule_key entry ≡ true
  pub has_action : find "action" entry ≡ some (str rule.action)
  pub is_named : not (str_eq rule.action "") ≡ true
  pub has_decision : find "decision" entry ≡ some (str rule.decision)
  pub decides : is_decision rule.decision ≡ true
  pub has_risks : DescribesRisks (get "risks" entry) rule.risks
  pub has_reason : TextOr "" (find "reason" entry) rule.reason

-- A list of objects that give the rules, in their order.
abbrev pub DescribesRules : Items → List Rule → Type 0
DescribesRules nil [] = Unit
DescribesRules nil (_ ∷ _) = ⊥
DescribesRules (cons v vs) [] = ⊥
DescribesRules (cons v vs) (rule ∷ rules) =
    ((entry : Fields) × (v ≡ obj entry) × DescribesRule entry rule) × DescribesRules vs rules

-- An object that gives a policy: `default` and `rules` may be left out.
pub record DescribesPolicy (raw : Fields) (p : RuleProvider) : Type 0 where
  pub entries : Items
  pub only_keys : all_keys is_policy_key raw ≡ true
  pub has_entries :
      (find "rules" raw ≡ some (arr entries)) ⊎ ((find "rules" raw ≡ none) × (entries ≡ nil))
  pub gives_rules : DescribesRules entries p.rules
  pub has_default : TextOr "denied" (find "default" raw) p.default
  pub is_word : is_decision p.default ≡ true

-- A document that gives a policy.
abbrev pub Describes : Json → RuleProvider → Type 0
Describes v p = (raw : Fields) × (v ≡ obj raw) × DescribesPolicy raw p
