-- ===== src/Policy/Rules/Tests.antt =====
-- A rule list with a default, and its theorem at it.
use tesera.Common.{◌≡◌, refl, Bool, none, some, List, [], ◌∷◌, ◌⊎◌, String, ◌||◌, str_eq}
use tesera.Policy.{ApprovalRequest, text}
use tesera.Policy.Rules.{Rule, RuleProvider, init, explain}
use tesera.Policy.Rules.First.{IsFirst, IsDefault, explain-IsFirst}

-- A glob that is a name, or matches all.
abbrev glob : String → String → Bool
glob name pattern = str_eq pattern "*" || str_eq name pattern

abbrev request : ApprovalRequest
request = record {
  action_name = "refund";
  risk = "low";
  approval_mode = "required";
  redacted_input_summary = "";
  input_hash = "";
  contract_hash = "";
  spend_cents = none;
}

abbrev rules : List Rule
rules =
    record { action = "refund"; decision = "denied"; risks = some ("high" ∷ []); reason = "" }
    ∷ record { action = "refund"; decision = "allowed"; risks = none; reason = "small" }
    ∷ record { action = "*"; decision = "denied"; risks = none; reason = "" }
    ∷ []

abbrev provider : RuleProvider
provider = record { rules = rules; default = "denied" }

made : init rules "denied" ≡ some provider
unfolding init
made = refl

second_decides : explain glob provider request ≡ record {
  decision = "allowed";
  reason = text "small";
  matched_index = some 1;
  matched_action = some "refund";
  total_rules = 3;
}
unfolding explain
second_decides = refl

bad_default : init rules "maybe" ≡ none
unfolding init
bad_default = refl

explain-IsFirst_example :
    IsFirst glob request rules 0 (explain glob provider request)
    ⊎ IsDefault glob request "denied" rules (explain glob provider request)
explain-IsFirst_example = explain-IsFirst glob request rules "denied" provider made
