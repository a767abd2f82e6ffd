-- ===== src/Policy/Budget.antt =====
-- `BudgetProvider` of src/tesera/policy.py: at most `max_calls` allowances, in total or for each
-- action name. The lock makes each `decide` one step.
pub mod Exact
mod Tests
use tesera.Common.{ℕ, ◌+◌, ◌-◌, Bool, Option, none, some, [], leb, if◌then◌else◌}
use tesera.Common.Int.{ℤ, pos, negsuc}
use tesera.Common.Dict.{Dict, insert, get_or}
use tesera.Policy.{
  ApprovalRequest, ApprovalDecision, allow, deny, budget_exhausted_for, budget_exhausted,
  within_budget,
}

pub record BudgetProvider : Type 0 where
  pub max_calls : ℕ
  pub per_action : Bool
  pub total : ℕ
  pub per_action_counts : Dict ℕ

-- `__init__`; none is the ValueError.
pub init : ℤ → Bool → Option BudgetProvider
init (negsuc _) per_action = none
init (pos max_calls) per_action =
    some
      (record { max_calls = max_calls; per_action = per_action; total = 0; per_action_counts = [] })

decide_per_action : ApprovalRequest → BudgetProvider → ApprovalDecision × BudgetProvider
unfolding get_or insert
decide_per_action request b =
    let used : ℕ = get_or 0 request.action_name b.per_action_counts in
    if leb b.max_calls used
    then (deny (budget_exhausted_for request.action_name (pos used) b.max_calls), b)
    else (
      allow (within_budget (pos (used + 1)) b.max_calls),
      record b { per_action_counts = insert request.action_name (used + 1) b.per_action_counts },
    )

decide_total : ApprovalRequest → BudgetProvider → ApprovalDecision × BudgetProvider
decide_total request b =
    if leb b.max_calls b.total
    then (deny (budget_exhausted (pos b.total) b.max_calls), b)
    else (allow (within_budget (pos (b.total + 1)) b.max_calls), record b { total = b.total + 1 })

unfoldable pub decide : ApprovalRequest → BudgetProvider → ApprovalDecision × BudgetProvider
unfolding decide_per_action decide_total
decide request b = if b.per_action then decide_per_action request b else decide_total request b

pub remaining : BudgetProvider → ℕ
remaining b = b.max_calls - b.total
