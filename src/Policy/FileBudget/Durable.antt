-- ===== src/Policy/FileBudget/Durable.antt =====
-- `FileBudgetProvider` against `BudgetProvider`: what the file holds stands for the counts in
-- memory, so a budget survives restarts, and no fault lets a call through.
use tesera.Common.{
  subst, ◌≡◌, sym, ◌∙◌, false, List, arith, ◌⊎◌, count_if, ◌≤◌, ◌-◌, ◌+◌, if◌then◌else◌,
}
use tesera.Common.Int.{pos}
use tesera.Policy.{ApprovalRequest, decide_all, was_allowed}
use tesera.Policy.StateFile.{StateFile, FileSystem}
use tesera.Policy.StateFile.Counts.{Counted}
use tesera.Policy.StateFile.Refines.{
  working, Decided, FaultyRun, Follows, Refuses, locked-works, locked-Follows, run, history_refines,
  history_is_faulty,
}
use tesera.Policy.FileBudget.{FileBudgetProvider, decide, region}
use tesera.Policy.Budget.{BudgetProvider}
use tesera.Policy.Budget
use tesera.Policy.FileBudget.Plans.{Represents, used_by, region-Plans}

-- Equal limits and flags can be taken to be the same.
at_equal :
    (P : FileBudgetProvider → BudgetProvider → Type 0) (p : FileBudgetProvider) (b : BudgetProvider)
    → p.max_calls ≡ b.max_calls
    → p.per_action ≡ b.per_action
    → P p (record b { max_calls = p.max_calls; per_action = p.per_action })
    → P p b
at_equal P p b em eg h =
    subst (λ m. P p (record b { max_calls = m })) em
      (subst (λ g. P p (record b { max_calls = p.max_calls; per_action = g })) eg h)

decide-works :
    (p : FileBudgetProvider) (r : ApprovalRequest) (file : StateFile) (b : BudgetProvider)
    → Represents p file b
    → Follows (Represents p) file b (Budget.decide r b) (decide p working r file)
unfolding decide
decide-works p r file b (em, eg, c) =
    at_equal
      (λ q d.
        Counted file (pos d.total) (used_by d.per_action_counts)
        → Follows (Represents q) file d (Budget.decide r d) (decide q working r file))
      p b em eg
      (λ c.
        locked-works (Represents p) file b _ (region p r) c.read c.read_eq
          (region-Plans p.max_calls r file b.total b.per_action_counts p.per_action c))
      c

decide-Follows :
    (p : FileBudgetProvider) (fs : FileSystem) (r : ApprovalRequest) (file : StateFile)
    (b : BudgetProvider)
    → Represents p file b
    → Refuses (Represents p) file (decide p fs r file)
      ⊎ Follows (Represents p) file b (Budget.decide r b) (decide p fs r file)
unfolding decide
decide-Follows p fs r file b (em, eg, c) =
    at_equal
      (λ q d.
        Counted file (pos d.total) (used_by d.per_action_counts)
        → Refuses (Represents q) file (decide q fs r file)
          ⊎ Follows (Represents q) file d (Budget.decide r d) (decide q fs r file))
      p b em eg
      (λ c.
        locked-Follows (Represents p) fs file b _ (region p r) c.read c.read_eq
          (region-Plans p.max_calls r file b.total b.per_action_counts p.per_action c))
      c

-- While the file system works, a budget in a file that represents a budget in memory decides every
-- history as that one does, and the file goes on representing it: a restart forgets nothing.
pub file_budget_refines :
    (p : FileBudgetProvider) (reqs : List ApprovalRequest) (file : StateFile) (b : BudgetProvider)
    → Represents p file b
    → let (ds, file') = decide_all (decide p working) reqs file in
      let (es, b') = decide_all Budget.decide reqs b in (ds ≡ es) × Represents p file' b'
file_budget_refines p reqs file b h =
    history_refines (Represents p) Budget.decide (decide p)
      (λ r file b h. decide-works p r file b h) reqs file b h

total_step :
    (r : ApprovalRequest) (b : BudgetProvider)
    → b.per_action ≡ false
    → let (d, b') = Budget.decide r b in
      (b'.per_action ≡ false)
      × (b'.max_calls ≡ b.max_calls)
      × (b'.total ≡ b.total + (if was_allowed (r, d) then 1 else 0))
      × ((if was_allowed (r, d) then 1 else 0) + (b'.max_calls - b'.total) ≤ b.max_calls - b.total)
unfolding Budget.decide
total_step r b g = ground arith

faulty_total :
    {b b' : BudgetProvider} {ds : List Decided}
    → FaultyRun Budget.decide b ds b'
    → b.per_action ≡ false
    → (count_if was_allowed ds ≤ b.max_calls - b.total)
      × (b'.total ≡ b.total + count_if was_allowed ds)
faulty_total FaultyRun.done g = omega arith
faulty_total {b = b} (FaultyRun.served r h) g =
    let (g', m, t, l) = total_step r b g in let ih = faulty_total h g' in omega (arith, ih.0, ih.1)
faulty_total {b = b} (FaultyRun.refused r d n h) g =
    let ih = faulty_total h g in rw n (omega (arith, ih.0, ih.1))

-- Whatever calls of the file system fail, the calls that one total budget allows are at most what
-- the file leaves, and the file counts every one of them.
pub file_budget_fails_closed :
    (p : FileBudgetProvider) (calls : List (FileSystem × ApprovalRequest)) (file : StateFile)
    (b : BudgetProvider)
    → Represents p file b
    → p.per_action ≡ false
    → let (ds, file') = run (decide p) calls file in
      (count_if was_allowed ds ≤ b.max_calls - b.total)
      × ((b' : BudgetProvider) × Represents p file' b'
          × (b'.total ≡ b.total + count_if was_allowed ds))
file_budget_fails_closed p calls file b h g =
    let (b', go) =
      history_is_faulty (Represents p) Budget.decide (decide p)
        (λ fs r file b h. decide-Follows p fs r file b h) calls file b h in
    let (le, eq) = faulty_total go.0 (sym h.1 ∙ g) in (le, (b', go.1, eq))
