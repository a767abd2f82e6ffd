-- ===== src/Policy/PolicyFile/Tests.antt =====
-- The policy file of the docstring of `load_policy_file`, and files that are refused.
use tesera.Common.{◌↔◌, ◌≡◌, refl, Bool, true, none, some, [], ◌∷◌, ◌⊎◌, String, ◌||◌, str_eq}
use tesera.Json.{as_str, Json, str, arr, obj, nil, cons, end, field}
use tesera.Policy.{ApprovalRequest}
use tesera.Policy.Rules.{Rule, RuleProvider}
use tesera.Policy.PolicyFile.{
  read_rule, load_object, PolicyText, document, garbled, loaded, refused, load_policy_file, no_json,
  unknown_risks, unknown_top_level,
}
use tesera.Policy.PolicyFile.Format.{is_policy, Describes}
use tesera.Policy.PolicyFile.Sound.{load_policy_file-is_policy}
use tesera.Policy.PolicyFile.Complete.{load_policy_file-Describes}
use tesera.Policy.PolicyFile.Allows.{AllowingEntry, AllowingDefault, allowed_by_file}

-- A glob that is a name, or matches all.
abbrev glob : String → String → Bool
glob name pattern = str_eq pattern "*" || str_eq name pattern

abbrev request : ApprovalRequest
request = record {
  action_name = "search";
  risk = "low";
  approval_mode = "required";
  redacted_input_summary = "";
  input_hash = "";
  contract_hash = "";
  spend_cents = none;
}

abbrev billing_entry : Json
billing_entry = obj (
    field "action" (str "billing") (
      field "decision" (str "denied") (
        field "risks" (arr (cons (str "high") (cons (str "critical") nil)))
          (field "reason" (str "needs a human") end))))

abbrev other_entry : Json
other_entry = obj (field "action" (str "*") (field "decision" (str "allowed") end))

abbrev documented_object : Json
documented_object = obj (
    field "default" (str "denied")
      (field "rules" (arr (cons billing_entry (cons other_entry nil))) end))

abbrev documented : PolicyText
documented = document documented_object

abbrev policy : RuleProvider
policy = record {
  rules =
      record {
        action = "billing";
        decision = "denied";
        risks = some ("high" ∷ "critical" ∷ []);
        reason = "needs a human";
      }
      ∷ record { action = "*"; decision = "allowed"; risks = none; reason = "" }
      ∷ [];
  default = "denied";
}

run_documented : load_policy_file documented ≡ loaded policy
unfolding load_policy_file load_object read_rule as_str
run_documented = refl

run_empty :
    load_policy_file (document (obj end)) ≡ loaded (record { rules = []; default = "denied" })
unfolding load_policy_file load_object
run_empty = refl

run_garbled : load_policy_file garbled ≡ refused no_json
unfolding load_policy_file
run_garbled = refl

run_misspelled :
    load_policy_file (document (obj (field "Rules" (arr nil) end))) ≡ refused unknown_top_level
unfolding load_policy_file load_object
run_misspelled = refl

run_unknown_risk :
    load_policy_file (
      document (
        obj (
          field "rules"
            (arr (
              cons
                (obj (
                  field "action" (str "*") (
                    field "decision"
                      (str "allowed")
                      (field "risks" (arr (cons (str "huge") nil)) end))))
                nil))
            end)))
    ≡ refused (unknown_risks 0)
unfolding load_policy_file load_object read_rule as_str
run_unknown_risk = refl

load_policy_file-is_policy_example : is_policy policy ≡ true
load_policy_file-is_policy_example = load_policy_file-is_policy documented policy run_documented

load_policy_file-Describes_example :
    (load_policy_file (document documented_object) ≡ loaded policy)
    ↔ Describes documented_object policy
load_policy_file-Describes_example = load_policy_file-Describes documented_object policy

-- The example of the docstring, whose second entry has no reason and no risks, is of the format.
documented_gives_policy : Describes documented_object policy
documented_gives_policy = load_policy_file-Describes_example.0 run_documented

allowed_by_file_example :
    AllowingEntry glob request documented policy ⊎ AllowingDefault glob request documented policy
unfolding tesera.Policy.Rules.decide
allowed_by_file_example = allowed_by_file glob request documented policy run_documented refl
