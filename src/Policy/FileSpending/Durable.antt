-- ===== src/Policy/FileSpending/Durable.antt =====
-- `FileSpendingBudgetProvider` against `SpendingBudgetProvider`: the file stands for the totals in
-- memory, so a budget survives restarts, and no fault lets spend through.
use tesera.Common.{
  ◌≡◌, refl, subst, true, false, none, some, List, ◌⊎◌, inl, inr, Option-cases, sym, ◌∙◌,
}
use tesera.Common.Int.{ℤ, pos, ◌+ℤ◌, ◌≤ℤ◌, +ℤ-zero, +ℤ_assoc, +ℤ-zero-left}
use tesera.Policy.{deny, no_spend_declared, ApprovalRequest, decide_all, was_allowed}
use tesera.Policy.StateFile.{StateFile, FileSystem, locked}
use tesera.Policy.StateFile.Counts.{Counted}
use tesera.Policy.StateFile.Refines.{
  working, Follows, Refuses, locked-works, locked-Follows, history_refines, history_is_faulty, run,
  FaultyRun, Decided,
}
use tesera.Policy.FileSpending.{FileSpendingBudgetProvider, decide, region, all_ints}
use tesera.Policy.Spending.{SpendingBudgetProvider}
use tesera.Policy.Spending
use tesera.Policy.Spending.Bound.{spent, decide-total_step}
use tesera.Policy.FileSpending.Plans.{Represents, used_by, region-Plans}

-- Equal limits and flags can be taken to be the same.
at_equal :
    (P : FileSpendingBudgetProvider → SpendingBudgetProvider → Type 0)
    (p : FileSpendingBudgetProvider) (b : SpendingBudgetProvider)
    → p.max_cents ≡ b.max_cents
    → p.per_action ≡ b.per_action
    → P p (record b { max_cents = p.max_cents; per_action = p.per_action })
    → P p b
at_equal P p b em eg h =
    subst (λ m. P p (record b { max_cents = m })) em
      (subst (λ g. P p (record b { max_cents = p.max_cents; per_action = g })) eg h)

-- The budgets' numbers are those that the file holds.
abbrev Same : StateFile → SpendingBudgetProvider → Type 0
Same file b = (c : Counted file b.total (used_by b.per_action_totals)) × (all_ints c.counts ≡ true)

decide-none :
    (p : FileSpendingBudgetProvider) (fs : FileSystem) (r : ApprovalRequest) (file : StateFile)
    → r.spend_cents ≡ none
    → decide p fs r file ≡ (deny no_spend_declared, file)
unfolding decide
decide-none p fs r file e = rw e refl

decide-spend :
    (p : FileSpendingBudgetProvider) (fs : FileSystem) (r : ApprovalRequest) (file : StateFile)
    (spend : ℤ)
    → r.spend_cents ≡ some spend
    → decide p fs r file ≡ locked fs file (region p r.action_name spend)
unfolding decide
decide-spend p fs r file spend e = rw e refl

memory-none :
    (r : ApprovalRequest) (b : SpendingBudgetProvider)
    → r.spend_cents ≡ none
    → Spending.decide r b ≡ (deny no_spend_declared, b)
unfolding Spending.decide
memory-none r b e = rw e refl

decide-works :
    (p : FileSpendingBudgetProvider) (r : ApprovalRequest) (file : StateFile)
    (b : SpendingBudgetProvider)
    → Represents p file b
    → Follows (Represents p) file b (Spending.decide r b) (decide p working r file)
decide-works p r file b h = elim (Option-cases r.spend_cents) [
  | inl e ↦ rw (decide-none p working r file e, memory-none r b e) (refl, h)
  | inr (spend, e) ↦ rw (decide-spend p working r file spend e) (
      at_equal
        (λ q d.
          Same file d
          → Follows (Represents q) file d (Spending.decide r d)
              (locked working file (region q r.action_name spend)))
        p b h.0 h.1
        (λ k.
          locked-works (Represents p) file b _ (region p r.action_name spend) k.0.read k.0.read_eq (
            region-Plans p.max_cents r spend file b.total b.per_action_totals e k.0 k.1
              p.per_action))
        (h.2, h.3))
]

decide-Follows :
    (p : FileSpendingBudgetProvider) (fs : FileSystem) (r : ApprovalRequest) (file : StateFile)
    (b : SpendingBudgetProvider)
    → Represents p file b
    → Refuses (Represents p) file (decide p fs r file)
      ⊎ Follows (Represents p) file b (Spending.decide r b) (decide p fs r file)
decide-Follows p fs r file b h = elim (Option-cases r.spend_cents) [
  | inl e ↦ rw (decide-none p fs r file e) (inl (refl, refl))
  | inr (spend, e) ↦ rw (decide-spend p fs r file spend e) (
      at_equal
        (λ q d.
          Same file d
          → Refuses (Represents q) file (locked fs file (region q r.action_name spend))
            ⊎ Follows (Represents q) file d (Spending.decide r d)
                (locked fs file (region q r.action_name spend)))
        p b h.0 h.1
        (λ k.
          locked-Follows (Represents p) fs file b _ (region p r.action_name spend) k.0.read
            k.0.read_eq
            (region-Plans p.max_cents r spend file b.total b.per_action_totals e k.0 k.1
              p.per_action))
        (h.2, h.3))
]

-- While the file system works, a spending budget in a file that represents one in memory decides
-- every history as that one does, and the file goes on representing it.
pub file_spending_refines :
    (p : FileSpendingBudgetProvider) (reqs : List ApprovalRequest) (file : StateFile)
    (b : SpendingBudgetProvider)
    → Represents p file b
    → let (ds, file') = decide_all (decide p working) reqs file in
      let (es, b') = decide_all Spending.decide reqs b in (ds ≡ es) × Represents p file' b'
file_spending_refines p reqs file b h =
    history_refines (Represents p) Spending.decide (decide p)
      (λ r file b h. decide-works p r file b h) reqs file b h

faulty_spent :
    {b b' : SpendingBudgetProvider} {ds : List Decided}
    → FaultyRun Spending.decide b ds b'
    → b.per_action ≡ false
    → b.total ≤ℤ pos b.max_cents
    → (b'.total ≡ b.total +ℤ spent was_allowed ds) × (b'.total ≤ℤ pos b.max_cents)
faulty_spent {b = b} FaultyRun.done g h = (sym (+ℤ-zero b.total), h)
faulty_spent {b = b} (FaultyRun.served r go) g h =
    let (g', m, h', e) = decide-total_step r b g h in
    let ih = faulty_spent go g' (rw m h') in (ih.0 ∙ rw e (+ℤ_assoc b.total _ _), rw m at ih.1)
faulty_spent {b = b} (FaultyRun.refused r d n go) g h =
    let ih = faulty_spent go g h in (rw (n, +ℤ-zero-left) ih.0, ih.1)

-- Whatever calls of the file system fail, one total spending budget lets through at most what the
-- file leaves of `max_cents`, and the file counts every cent of it.
pub file_spending_fails_closed :
    (p : FileSpendingBudgetProvider) (calls : List (FileSystem × ApprovalRequest))
    (file : StateFile) (b : SpendingBudgetProvider)
    → Represents p file b
    → p.per_action ≡ false
    → b.total ≤ℤ pos b.max_cents
    → let (ds, file') = run (decide p) calls file in
      (b' : SpendingBudgetProvider) × Represents p file' b'
      × (b'.total ≡ b.total +ℤ spent was_allowed ds)
      × (b'.total ≤ℤ pos b.max_cents)
file_spending_fails_closed p calls file b h g le =
    let (b', go) =
      history_is_faulty (Represents p) Spending.decide (decide p)
        (λ fs r file b h. decide-Follows p fs r file b h) calls file b h in
    let bound = faulty_spent go.0 (sym h.1 ∙ g) le in (b', go.1, bound.0, bound.1)
