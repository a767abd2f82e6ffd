-- ===== src/Policy/FileBudget.antt =====
-- `FileBudgetProvider` of src/tesera/policy.py: a budget in a state file. A provider object keeps
-- no state of its own, so a run over many processes is a run over the file.
pub mod Plans
pub mod Durable
mod Tests
use tesera.Common.{ℕ, Bool, Option, none, some, String, leb, if◌then◌else◌}
use tesera.Common.Int.{ℤ, pos, negsuc, ◌+ℤ◌, leb_ℤ}
use tesera.Json.{Json, Fields, int, obj, end, as_int, as_obj}
use tesera.Json.Payload.{set}
use tesera.Policy.{
  ApprovalRequest, ApprovalDecision, allow, deny, budget_exhausted_for, budget_exhausted,
  within_budget,
}
use tesera.Policy.StateFile.{
  StateFile, FileSystem, Action, raise_corrupt, answer, write, get_default, locked,
}
use tesera.Policy.StateFile.Counts.{or_initial, payload, total_in, counts_in, count_in}

pub record FileBudgetProvider : Type 0 where
  pub max_calls : ℕ
  pub per_action : Bool

-- `__init__`; none is the ValueError.
pub init : ℤ → Bool → Option FileBudgetProvider
init (negsuc _) per_action = none
init (pos max_calls) per_action = some (record { max_calls = max_calls; per_action = per_action })

-- The branch of a budget for each action; the total is written as it was read.
unfoldable pub charge_action : ℕ → String → Json → Fields → Action
unfolding count_in set ◌+ℤ◌
charge_action max_calls name total per_action = elim (count_in name per_action) [
  | none ↦ raise_corrupt
  | some used ↦
      if leb_ℤ (pos max_calls) used
      then answer (deny (budget_exhausted_for name used max_calls))
      else write (payload total (set name (int (used +ℤ pos 1)) per_action))
          (allow (within_budget (used +ℤ pos 1) max_calls))
]

unfoldable pub charge_total : ℕ → ℤ → Fields → Action
unfolding ◌+ℤ◌
charge_total max_calls total per_action =
    if leb_ℤ (pos max_calls) total
    then answer (deny (budget_exhausted total max_calls))
    else write (payload (int (total +ℤ pos 1)) per_action)
        (allow (within_budget (total +ℤ pos 1) max_calls))

-- The type tests on `total` and `per_action`, and the two branches.
unfoldable pub charge : FileBudgetProvider → String → Json → Option ℤ → Option Fields → Action
unfolding charge_action charge_total
charge p name raw none _ = raise_corrupt
charge p name raw (some total) none = raise_corrupt
charge p name raw (some total) (some per_action) =
    if p.per_action
    then charge_action p.max_calls name raw per_action
    else charge_total p.max_calls total per_action

unfoldable pub region : FileBudgetProvider → ApprovalRequest → Option Fields → Action
unfolding charge get_default total_in counts_in
region p request read =
    let s = or_initial read in
    charge p request.action_name (get_default (int (pos 0)) "total" s) (total_in s) (counts_in s)

unfoldable pub decide :
    FileBudgetProvider → FileSystem → ApprovalRequest → StateFile → ApprovalDecision × StateFile
unfolding locked region
decide p fs request file = locked fs file (region p request)
