-- ===== src/Policy/Rules.antt =====
-- `Rule`, `RuleExplanation` and `RuleProvider` of src/tesera/policy.py. `fnmatch.fnmatchcase` is a
-- parameter, on a name and a glob.
pub mod First
mod Tests
use tesera.Common.{
  ℕ, suc, Bool, true, false, Option, none, some, List, [], ◌∷◌, String, ◌&&◌, ◌||◌, any_of, all_of,
  length, str_eq, if◌then◌else◌,
}
use tesera.Policy.{
  ApprovalRequest, ApprovalDecision, Verdict, allowed, denied, invalid, Reason, text, verdict,
  matched_rule,
}

pub record Rule : Type 0 where
  pub action : String
  pub decision : String
  pub risks : Option (List String)
  pub reason : String

pub record RuleExplanation : Type 0 where
  pub decision : String
  pub reason : Reason
  pub matched_index : Option ℕ
  pub matched_action : Option String
  pub total_rules : ℕ

pub record RuleProvider : Type 0 where
  pub rules : List Rule
  pub default : String

abbrev pub is_decision : String → Bool
is_decision s = str_eq s "allowed" || str_eq s "denied"

-- `RuleProvider.__init__`; none is the PolicyError.
unfoldable pub init : List Rule → String → Option RuleProvider
init rules default =
    if is_decision default && all_of (λ rule. is_decision rule.decision) rules
    then some (record { rules = rules; default = default })
    else none

abbrev pub in_risks : Option (List String) → String → Bool
in_risks none risk = true
in_risks (some risks) risk = any_of (λ r. str_eq r risk) risks

-- `rule.reason or f"matched rule ..."`
abbrev pub reason_of : Rule → Reason
reason_of rule =
    if str_eq rule.reason "" then matched_rule rule.action rule.decision else text rule.reason

module _ (fnmatchcase : String → String → Bool) where
  -- `Rule.matches`
  abbrev pub matches : ApprovalRequest → Rule → Bool
  matches request rule =
      fnmatchcase request.action_name rule.action && in_risks rule.risks request.risk

  -- The loop over the rules from an index on, with what follows it.
  unfoldable pub explain_from : ApprovalRequest → String → ℕ → ℕ → List Rule → RuleExplanation
  explain_from request default total index [] =
      if str_eq default "allowed"
      then record {
        decision = "allowed";
        reason = text "allowed by policy default";
        matched_index = none;
        matched_action = none;
        total_rules = total;
      }
      else record {
        decision = "denied";
        reason = text "no policy rule matched; default deny";
        matched_index = none;
        matched_action = none;
        total_rules = total;
      }
  explain_from request default total index (rule ∷ rules) =
      let rest = explain_from request default total (suc index) rules in
      if matches request rule
      then record {
        decision = rule.decision;
        reason = reason_of rule;
        matched_index = some index;
        matched_action = some rule.action;
        total_rules = total;
      }
      else rest

  -- `RuleProvider.explain`
  unfoldable pub explain : RuleProvider → ApprovalRequest → RuleExplanation
  unfolding explain_from
  explain p request = explain_from request p.default (length p.rules) 0 p.rules

  -- `RuleProvider.decide`
  unfoldable pub decide : RuleProvider → ApprovalRequest → ApprovalDecision
  unfolding explain
  decide p request =
      let e = explain p request in
      record { decision = verdict e.decision; reason = e.reason; approved_by = none }
