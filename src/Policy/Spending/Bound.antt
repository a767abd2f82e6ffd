-- ===== src/Policy/Spending/Bound.antt =====
-- The spend that `SpendingBudgetProvider` lets through over a history of calls.
use tesera.Common.{
  ◌≡◌, sym, ◌∙◌, Bool, true, false, Option, none, some, List, [], ◌∷◌, String, arith, eq_iff,
  if◌then◌else◌,
}
use tesera.Common.Int.{ℤ, pos, ◌+ℤ◌, ◌≤ℤ◌, +ℤ-zero, +ℤ_assoc}
use tesera.Common.Dict.{get_or, get_or-insert}
use tesera.Policy.{ApprovalRequest, ApprovalDecision, decide_all, was_allowed, was_allowed_for}
use tesera.Policy.Spending.{SpendingBudgetProvider, decide}

-- The declared spend, if there is one.
abbrev pub declared : Option ℤ → ℤ
declared none = pos 0
declared (some spend) = spend

-- The spend of the calls of a history that pass a test.
abbrev pub spent :
    (ApprovalRequest × ApprovalDecision → Bool) → List (ApprovalRequest × ApprovalDecision) → ℤ
spent p [] = pos 0
spent p (c ∷ cs) = (if p c then declared c.0.spend_cents else pos 0) +ℤ spent p cs

pub decide-total_step :
    (r : ApprovalRequest) (b : SpendingBudgetProvider)
    → b.per_action ≡ false
    → b.total ≤ℤ pos b.max_cents
    → let (d, b') = decide r b in
      (b'.per_action ≡ false)
      × (b'.max_cents ≡ b.max_cents)
      × (b'.total ≤ℤ pos b.max_cents)
      × (b'.total ≡ b.total +ℤ (if was_allowed (r, d) then declared r.spend_cents else pos 0))
unfolding decide
decide-total_step r b g h = ground (arith, +ℤ-zero b.total)

decide-action_step :
    (a : String) (r : ApprovalRequest) (b : SpendingBudgetProvider)
    → b.per_action ≡ true
    → get_or (pos 0) a b.per_action_totals ≤ℤ pos b.max_cents
    → let (d, b') = decide r b in
      (b'.per_action ≡ true)
      × (b'.max_cents ≡ b.max_cents)
      × (get_or (pos 0) a b'.per_action_totals ≤ℤ pos b.max_cents)
      × (get_or (pos 0) a b'.per_action_totals
          ≡ get_or (pos 0) a b.per_action_totals
            +ℤ (if was_allowed_for a (r, d) then declared r.spend_cents else pos 0))
unfolding decide
decide-action_step a r b g h = ground (
  arith,
  +ℤ-zero (get_or (pos 0) a b.per_action_totals),
  eq_iff r.action_name a,
  get_or-insert (pos 0) r.action_name a
      (get_or (pos 0) r.action_name b.per_action_totals +ℤ declared r.spend_cents)
      b.per_action_totals,
)

-- With one total for all actions, the total grows by exactly the spend of the allowed calls and
-- never passes `max_cents`, whatever the requests declare.
pub spent_total :
    (reqs : List ApprovalRequest) (b : SpendingBudgetProvider)
    → b.per_action ≡ false
    → b.total ≤ℤ pos b.max_cents
    → let (calls, b') = decide_all decide reqs b in
      (b'.total ≡ b.total +ℤ spent was_allowed calls) × (b'.total ≤ℤ pos b.max_cents)
unfolding decide_all
spent_total [] b g h = (sym (+ℤ-zero b.total), h)
spent_total (r ∷ reqs) b g h =
    let (g', m, h', e) = decide-total_step r b g h in
    let ih = spent_total reqs (decide r b).1 g' (rw m h') in
    (ih.0 ∙ rw e (+ℤ_assoc b.total _ _), rw m at ih.1)

-- With a total for each action, the total of action `a` grows by exactly the spend of the allowed
-- calls of `a` and never passes `max_cents`.
pub spent_per_action :
    (a : String) (reqs : List ApprovalRequest) (b : SpendingBudgetProvider)
    → b.per_action ≡ true
    → get_or (pos 0) a b.per_action_totals ≤ℤ pos b.max_cents
    → let (calls, b') = decide_all decide reqs b in
      (get_or (pos 0) a b'.per_action_totals
        ≡ get_or (pos 0) a b.per_action_totals +ℤ spent (was_allowed_for a) calls)
      × (get_or (pos 0) a b'.per_action_totals ≤ℤ pos b.max_cents)
unfolding decide_all
spent_per_action a [] b g h = (sym (+ℤ-zero _), h)
spent_per_action a (r ∷ reqs) b g h =
    let (g', m, h', e) = decide-action_step a r b g h in
    let ih = spent_per_action a reqs (decide r b).1 g' (rw m h') in
    (ih.0 ∙ rw e (+ℤ_assoc (get_or (pos 0) a b.per_action_totals) _ _), rw m at ih.1)
