-- ===== src/Policy/Spending.antt =====
-- `SpendingBudgetProvider` of src/tesera/policy.py: declared spend, in cents, up to `max_cents`, in
-- total or for each action. Python's ints are ℤ; the constructor refuses a negative maximum.
pub mod Bound
mod Tests
use tesera.Common.{ℕ, Bool, Option, none, some, [], if◌then◌else◌}
use tesera.Common.Int.{ℤ, pos, negsuc, ◌+ℤ◌, ltb_ℤ}
use tesera.Common.Dict.{Dict, insert, get_or}
use tesera.Policy.{
  ApprovalRequest, ApprovalDecision, allow, deny, no_spend_declared, spending_exhausted_for,
  spending_exhausted, within_spending,
}

pub record SpendingBudgetProvider : Type 0 where
  pub max_cents : ℕ
  pub per_action : Bool
  pub total : ℤ
  pub per_action_totals : Dict ℤ

-- `__init__`; none is the ValueError.
pub init : ℤ → Bool → Option SpendingBudgetProvider
init (negsuc _) per_action = none
init (pos max_cents) per_action = some (record {
  max_cents = max_cents;
  per_action = per_action;
  total = pos 0;
  per_action_totals = [];
})

spend_per_action :
    ApprovalRequest → ℤ → SpendingBudgetProvider → ApprovalDecision × SpendingBudgetProvider
spend_per_action request spend b =
    let used : ℤ = get_or (pos 0) request.action_name b.per_action_totals in
    if ltb_ℤ (pos b.max_cents) (used +ℤ spend)
    then (deny (spending_exhausted_for request.action_name used spend b.max_cents), b)
    else (
      allow (within_spending (used +ℤ spend) b.max_cents),
      record b {
        per_action_totals = insert request.action_name (used +ℤ spend) b.per_action_totals;
      },
    )

spend_total : ℤ → SpendingBudgetProvider → ApprovalDecision × SpendingBudgetProvider
spend_total spend b =
    if ltb_ℤ (pos b.max_cents) (b.total +ℤ spend)
    then (deny (spending_exhausted b.total spend b.max_cents), b)
    else (
      allow (within_spending (b.total +ℤ spend) b.max_cents),
      record b { total = b.total +ℤ spend },
    )

unfoldable pub decide :
    ApprovalRequest → SpendingBudgetProvider → ApprovalDecision × SpendingBudgetProvider
unfolding spend_per_action spend_total
decide request b = elim request.spend_cents [
  | none ↦ (deny no_spend_declared, b)
  | some spend ↦ if b.per_action then spend_per_action request spend b else spend_total spend b
]
