-- ===== src/Policy/FileSpending.antt =====
-- `FileSpendingBudgetProvider` of src/tesera/policy.py: a spending budget in a state file.
pub mod Plans
pub mod Durable
mod Tests
use tesera.Common.{ℕ, Bool, true, false, Option, none, some, String, ◌&&◌, if◌then◌else◌}
use tesera.Common.Int.{ℤ, pos, negsuc, ◌+ℤ◌, ltb_ℤ}
use tesera.Json.{Json, Fields, int, end, field, as_int}
use tesera.Json.Payload.{set}
use tesera.Policy.{
  ApprovalRequest, ApprovalDecision, allow, deny, no_spend_declared, spending_exhausted_for,
  spending_exhausted, within_spending,
}
use tesera.Policy.StateFile.{
  StateFile, FileSystem, Action, raise_corrupt, answer, write, get_default, locked,
}
use tesera.Policy.StateFile.Counts.{or_initial, payload, total_in, counts_in, count_in}

pub record FileSpendingBudgetProvider : Type 0 where
  pub max_cents : ℕ
  pub per_action : Bool

-- `__init__`; none is the ValueError.
pub init : ℤ → Bool → Option FileSpendingBudgetProvider
init (negsuc _) per_action = none
init (pos max_cents) per_action = some (record { max_cents = max_cents; per_action = per_action })

-- `all(isinstance(v, int) for v in per_action.values())`
unfoldable pub all_ints : Fields → Bool
unfolding as_int
all_ints end = true
all_ints (field k v fs) = elim (as_int v) [ none ↦ false | some _ ↦ true ] && all_ints fs

-- The branch of a budget for each action; the total is written as it was read.
unfoldable pub charge_action : ℕ → String → ℤ → Json → Fields → Action
unfolding count_in set ◌+ℤ◌
charge_action max_cents name spend total per_action = elim (count_in name per_action) [
  | none ↦ raise_corrupt
  | some used ↦
      if ltb_ℤ (pos max_cents) (used +ℤ spend)
      then answer (deny (spending_exhausted_for name used spend max_cents))
      else write (payload total (set name (int (used +ℤ spend)) per_action))
          (allow (within_spending (used +ℤ spend) max_cents))
]

unfoldable pub charge_total : ℕ → ℤ → ℤ → Fields → Action
unfolding ◌+ℤ◌
charge_total max_cents spend total per_action =
    if ltb_ℤ (pos max_cents) (total +ℤ spend)
    then answer (deny (spending_exhausted total spend max_cents))
    else write (payload (int (total +ℤ spend)) per_action)
        (allow (within_spending (total +ℤ spend) max_cents))

-- The type tests on `total`, `per_action` and its values, and the two branches.
unfoldable pub charge :
    FileSpendingBudgetProvider → String → ℤ → Json → Option ℤ → Option Fields → Action
unfolding all_ints charge_action charge_total
charge p name spend raw none _ = raise_corrupt
charge p name spend raw (some total) none = raise_corrupt
charge p name spend raw (some total) (some per_action) =
    if all_ints per_action
    then if p.per_action
      then charge_action p.max_cents name spend raw per_action
      else charge_total p.max_cents spend total per_action
    else raise_corrupt

unfoldable pub region : FileSpendingBudgetProvider → String → ℤ → Option Fields → Action
unfolding charge get_default total_in counts_in
region p name spend read =
    let s = or_initial read in
    charge p name spend (get_default (int (pos 0)) "total" s) (total_in s) (counts_in s)

unfoldable pub decide :
    FileSpendingBudgetProvider
    → FileSystem
    → ApprovalRequest
    → StateFile
    → ApprovalDecision × StateFile
unfolding locked region
decide p fs request file = elim request.spend_cents [
  | none ↦ (deny no_spend_declared, file)
  | some spend ↦ locked fs file (region p request.action_name spend)
]
