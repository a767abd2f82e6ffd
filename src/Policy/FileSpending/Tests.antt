-- ===== src/Policy/FileSpending/Tests.antt =====
-- Runs of `FileSpendingBudgetProvider` over a state file, and its theorems at them.
use tesera.Common.Dict.{get_or}
use tesera.Common.{◌≡◌, refl, false, some, List, [], ◌∷◌, count_if, String, arith}
use tesera.Common.Int.{ℤ, pos, negsuc, ◌≤ℤ◌, ◌+ℤ◌}
use tesera.Json.{str, int, obj, field, end}
use tesera.Policy.{ApprovalRequest, decide_all, was_allowed}
use tesera.Policy.StateFile.{StateFile, FileSystem, missing, holds}
use tesera.Policy.StateFile.Counts.{missing-Counted, payload}
use tesera.Policy.StateFile.Refines.{working, run}
use tesera.Policy.Spending.{SpendingBudgetProvider}
use tesera.Policy.Spending
use tesera.Policy.Spending.Bound.{spent}
use tesera.Policy.FileSpending.{all_ints, FileSpendingBudgetProvider, decide}
use tesera.Policy.FileSpending.Plans.{Represents}
use tesera.Policy.FileSpending.Durable.{file_spending_refines, file_spending_fails_closed}

abbrev request : String → ℤ → ApprovalRequest
request name cents = record {
  action_name = name;
  risk = "high";
  approval_mode = "required";
  redacted_input_summary = "";
  input_hash = "";
  contract_hash = "";
  spend_cents = some cents;
}

abbrev shared : FileSpendingBudgetProvider
shared = record { max_cents = 100; per_action = false }

abbrev fresh : SpendingBudgetProvider
fresh = record { max_cents = 100; per_action = false; total = pos 0; per_action_totals = [] }

abbrev history : List ApprovalRequest
history = request "refund" (pos 60) ∷ request "payout" (pos 50) ∷ request "refund" (pos 40) ∷ []

abbrev no_files : FileSystem
no_files = record { opens = false; writes = false }

abbrev faulty : List (FileSystem × ApprovalRequest)
faulty =
    (working, request "refund" (pos 60))
    ∷ (no_files, request "refund" (pos 10))
    ∷ (working, request "refund" (negsuc 4))
    ∷ []

-- A file with a total that is no number, or with an action that is none, lets nothing through.
abbrev bad_total : StateFile
bad_total = holds (obj (payload (str "0") end))

abbrev bad_count : StateFile
bad_count = holds (obj (payload (int (pos 0)) (field "payout" (str "0") end)))

fresh-Represents : Represents shared missing fresh
unfolding get_or all_ints
fresh-Represents = (refl, refl, missing-Counted.0, rw (missing-Counted.1) refl)

corrupt_denies :
    (count_if was_allowed (decide_all (decide shared working) history bad_total).0 ≡ 0)
    × (count_if was_allowed (decide_all (decide shared working) history bad_count).0 ≡ 0)
unfolding decide_all decide
corrupt_denies = (refl, refl)

file_spending_refines_example :
    let (ds, file') = decide_all (decide shared working) history missing in
    let (es, b') = decide_all Spending.decide history fresh in
    (ds ≡ es) × Represents shared file' b'
file_spending_refines_example = file_spending_refines shared history missing fresh fresh-Represents

file_spending_fails_closed_example :
    let (ds, file') = run (decide shared) faulty missing in
    (b' : SpendingBudgetProvider) × Represents shared file' b'
    × (b'.total ≡ pos 0 +ℤ spent was_allowed ds)
    × (b'.total ≤ℤ pos 100)
file_spending_fails_closed_example =
    file_spending_fails_closed shared faulty missing fresh fresh-Represents refl (omega arith)
