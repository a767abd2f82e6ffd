-- ===== src/Policy/Spending/Tests.antt =====
-- Runs of `SpendingBudgetProvider`, and its theorems at them.
use tesera.Common.{◌≡◌, refl, true, false, some, List, [], ◌∷◌, String, arith}
use tesera.Common.Int.{ℤ, pos, ◌≤ℤ◌, ◌+ℤ◌}
use tesera.Common.Dict.{get_or}
use tesera.Policy.{ApprovalRequest, decide_all, was_allowed, was_allowed_for}
use tesera.Policy.Spending.{SpendingBudgetProvider, decide}
use tesera.Policy.Spending.Bound.{spent, spent_total, spent_per_action}

abbrev request : String → ℤ → ApprovalRequest
request name cents = record {
  action_name = name;
  risk = "high";
  approval_mode = "required";
  redacted_input_summary = "";
  input_hash = "";
  contract_hash = "";
  spend_cents = some cents;
}

abbrev history : List ApprovalRequest
history = request "refund" (pos 60) ∷ request "payout" (pos 50) ∷ request "refund" (pos 40) ∷ []

abbrev shared : SpendingBudgetProvider
shared = record { max_cents = 100; per_action = false; total = pos 0; per_action_totals = [] }

abbrev separate : SpendingBudgetProvider
separate = record shared { per_action = true }

-- The payout is denied, and the second refund still fits.
shared_total : (decide_all decide history shared).1.total ≡ pos 100
unfolding decide_all decide ◌+ℤ◌
shared_total = refl

spent_total_example :
    let (calls, b') = decide_all decide history shared in
    (b'.total ≡ pos 0 +ℤ spent was_allowed calls) × (b'.total ≤ℤ pos 100)
spent_total_example = spent_total history shared refl (omega arith)

spent_per_action_example :
    let (calls, b') = decide_all decide history separate in
    (get_or (pos 0) "refund" b'.per_action_totals
      ≡ get_or (pos 0) "refund" [] +ℤ spent (was_allowed_for "refund") calls)
    × (get_or (pos 0) "refund" b'.per_action_totals ≤ℤ pos 100)
unfolding get_or
spent_per_action_example = spent_per_action "refund" history separate refl (omega arith)
