-- ===== src/Policy/FileBudget/Tests.antt =====
-- Runs of `FileBudgetProvider` over a state file, and its theorems at them.
use tesera.Common.Dict.{get_or}
use tesera.Common.{◌≡◌, ◌≤◌, ◌+◌, ◌-◌, refl, true, false, none, List, [], ◌∷◌, count_if, String}
use tesera.Policy.{ApprovalRequest, decide_all, was_allowed}
use tesera.Policy.StateFile.{FileSystem, missing, garbled}
use tesera.Policy.StateFile.Counts.{missing-Counted}
use tesera.Policy.StateFile.Refines.{working, run}
use tesera.Policy.Budget.{BudgetProvider}
use tesera.Policy.Budget
use tesera.Policy.FileBudget.{FileBudgetProvider, decide}
use tesera.Policy.FileBudget.Plans.{Represents}
use tesera.Policy.FileBudget.Durable.{file_budget_refines, file_budget_fails_closed}

abbrev request : String → ApprovalRequest
request name = record {
  action_name = name;
  risk = "high";
  approval_mode = "required";
  redacted_input_summary = "";
  input_hash = "";
  contract_hash = "";
  spend_cents = none;
}

abbrev shared : FileBudgetProvider
shared = record { max_calls = 2; per_action = false }

abbrev fresh : BudgetProvider
fresh = record { max_calls = 2; per_action = false; total = 0; per_action_counts = [] }

abbrev history : List ApprovalRequest
history = request "refund" ∷ request "ping" ∷ request "refund" ∷ []

abbrev read_only : FileSystem
read_only = record { opens = true; writes = false }

-- The second call cannot write its state, so it is refused and costs nothing.
abbrev faulty : List (FileSystem × ApprovalRequest)
faulty =
    (working, request "refund")
    ∷ (read_only, request "ping")
    ∷ (working, request "ping")
    ∷ (working, request "refund")
    ∷ []

fresh-Represents : Represents shared missing fresh
unfolding get_or
fresh-Represents = (refl, refl, missing-Counted.0)

faulty_allowances : count_if was_allowed (run (decide shared) faulty missing).0 ≡ 2
unfolding run decide
faulty_allowances = refl

-- A file that holds no JSON text lets nothing through.
garbled_denies : count_if was_allowed (decide_all (decide shared working) history garbled).0 ≡ 0
unfolding decide_all decide
garbled_denies = refl

file_budget_refines_example :
    let (ds, file') = decide_all (decide shared working) history missing in
    let (es, b') = decide_all Budget.decide history fresh in (ds ≡ es) × Represents shared file' b'
file_budget_refines_example = file_budget_refines shared history missing fresh fresh-Represents

file_budget_fails_closed_example :
    let (ds, file') = run (decide shared) faulty missing in
    (count_if was_allowed ds ≤ 2 - 0)
    × ((b' : BudgetProvider) × Represents shared file' b'
        × (b'.total ≡ 0 + count_if was_allowed ds))
file_budget_fails_closed_example =
    file_budget_fails_closed shared faulty missing fresh fresh-Represents refl
