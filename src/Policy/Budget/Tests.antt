-- ===== src/Policy/Budget/Tests.antt =====
-- Runs of `BudgetProvider`, and its theorems at concrete histories.
use tesera.Common.{◌≡◌, refl, true, false, none, List, [], ◌∷◌, count_if, String}
use tesera.Policy.{ApprovalRequest, decide_all, was_allowed, was_allowed_for}
use tesera.Policy.Budget.{BudgetProvider, decide}
use tesera.Policy.Budget.Exact.{allowances_exact, allowances_exact_per_action}

abbrev request : String → ApprovalRequest
request name = record {
  action_name = name;
  risk = "high";
  approval_mode = "required";
  redacted_input_summary = "";
  input_hash = "";
  contract_hash = "";
  spend_cents = none;
}

abbrev history : List ApprovalRequest
history = request "refund" ∷ request "ping" ∷ request "refund" ∷ request "refund" ∷ []

abbrev shared : BudgetProvider
shared = record { max_calls = 2; per_action = false; total = 0; per_action_counts = [] }

abbrev separate : BudgetProvider
separate = record shared { per_action = true }

allowances_exact_example : count_if was_allowed (decide_all decide history shared).0 ≡ 2
allowances_exact_example = allowances_exact history shared refl

allowances_exact_per_action_example :
    count_if (was_allowed_for "refund") (decide_all decide history separate).0 ≡ 2
unfolding decide
allowances_exact_per_action_example = allowances_exact_per_action "refund" history separate refl
