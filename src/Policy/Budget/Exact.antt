-- ===== src/Policy/Budget/Exact.antt =====
-- How many calls of a history `BudgetProvider` allows.
use Prim.Native.Nat.{min}
use tesera.Common.{
  ℕ, suc, ◌+◌, ◌-◌, ◌≡◌, true, false, List, [], ◌∷◌, String, arith, length, count_if, eq_iff,
  if◌then◌else◌,
}
use tesera.Common.Dict.{get_or, get_or-insert}
use tesera.Policy.{ApprovalRequest, decide_all, was_allowed, was_allowed_for, is_action}
use tesera.Policy.Budget.{BudgetProvider, decide}

-- One call uses one unit of the total, if it is allowed.
decide-step :
    (r : ApprovalRequest) (b : BudgetProvider) (n : ℕ)
    → b.per_action ≡ false
    → let (d, b') = decide r b in
      (b'.per_action ≡ false)
      × (min (b.max_calls - b.total) (suc n)
          ≡ (if was_allowed (r, d) then 1 else 0) + min (b'.max_calls - b'.total) n)
unfolding decide
decide-step r b n g = ground arith

-- One call uses one unit of its own action, if it is allowed.
decide-step_for :
    (a : String) (r : ApprovalRequest) (b : BudgetProvider) (n : ℕ)
    → b.per_action ≡ true
    → let (d, b') = decide r b in
      (b'.per_action ≡ true)
      × (min (b.max_calls - get_or 0 a b.per_action_counts) ((if is_action a r then 1 else 0) + n)
          ≡ (if was_allowed_for a (r, d) then 1 else 0)
            + min (b'.max_calls - get_or 0 a b'.per_action_counts) n)
unfolding decide
decide-step_for a r b n g = ground (
  arith,
  eq_iff r.action_name a,
  get_or-insert 0 r.action_name a (get_or 0 r.action_name b.per_action_counts + 1)
      b.per_action_counts,
)

-- With one budget for all actions, a history of n calls has exactly min(n, what is left)
-- allowances, whatever the requests.
pub allowances_exact :
    (reqs : List ApprovalRequest) (b : BudgetProvider)
    → b.per_action ≡ false
    → count_if was_allowed (decide_all decide reqs b).0 ≡ min (b.max_calls - b.total) (length reqs)
unfolding decide_all
allowances_exact [] b g = omega arith
allowances_exact (r ∷ reqs) b g =
    let step = decide-step r b (length reqs) g in
    omega (arith, step.1, allowances_exact reqs (decide r b).1 step.0)

-- With a budget for each action, the calls of action `a` are allowed exactly min(how many there
-- are, what is left for `a`) times: other actions take nothing from it.
pub allowances_exact_per_action :
    (a : String) (reqs : List ApprovalRequest) (b : BudgetProvider)
    → b.per_action ≡ true
    → count_if (was_allowed_for a) (decide_all decide reqs b).0
      ≡ min (b.max_calls - get_or 0 a b.per_action_counts) (count_if (is_action a) reqs)
unfolding decide_all
allowances_exact_per_action a [] b g = omega arith
allowances_exact_per_action a (r ∷ reqs) b g =
    let step = decide-step_for a r b (count_if (is_action a) reqs) g in
    omega (arith, step.1, allowances_exact_per_action a reqs (decide r b).1 step.0)
