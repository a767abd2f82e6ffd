-- ===== src/Policy/FileSpending/Plans.antt =====
-- One `decide` of `FileSpendingBudgetProvider` on a file that represents a
-- `SpendingBudgetProvider`: the locked region plans what the budget in memory decides.
use tesera.Common.{
  ◌≡◌, refl, Bool, true, false, some, inl, inr, Bool-cases, ℕ, str_eq, String, arith,
}
use tesera.Common.Int.{ℤ, pos, ◌+ℤ◌, ltb_ℤ}
use tesera.Common.Dict.{Dict, insert, get_or, get_or-insert}
use tesera.Json.{Json, as_int, Fields, int, obj, end, field}
use tesera.Json.Payload.{set}
use tesera.Policy.{ApprovalRequest}
use tesera.Policy.StateFile.{StateFile, holds}
use tesera.Policy.StateFile.Counts.{
  Counted, payload-Counted, count_in-set, count_in, total_in, payload,
}
use tesera.Policy.StateFile.Refines.{Plans, Plans-if}
use tesera.Policy.FileSpending.{
  FileSpendingBudgetProvider, region, charge, charge_action, charge_total, all_ints,
}
use tesera.Policy.Spending.{SpendingBudgetProvider}
use tesera.Policy.Spending

abbrev pub used_by : Dict ℤ → String → ℤ
used_by totals a = get_or (pos 0) a totals

-- The file holds the totals of the budget in memory, and numbers only.
abbrev pub Represents : FileSpendingBudgetProvider → StateFile → SpendingBudgetProvider → Type 0
Represents p file b =
    (p.max_cents ≡ b.max_cents)
    × (p.per_action ≡ b.per_action)
    × (c : Counted file b.total (used_by b.per_action_totals)) × (all_ints c.counts ≡ true)

all_ints-set :
    (k : String) (n : ℤ) (fs : Fields) → all_ints fs ≡ true → all_ints (set k (int n) fs) ≡ true
unfolding all_ints set as_int
all_ints-set k n end h = refl
all_ints-set k n (field j v fs) h = ground (arith, all_ints-set k n fs)

totals_step :
    (k : String) (n : ℤ) (per : Fields) (totals : Dict ℤ)
    → ((a : String) → count_in a per ≡ some (used_by totals a))
    → (a : String) → count_in a (set k (int n) per) ≡ some (used_by (insert k n totals) a)
totals_step k n per totals h a =
    rw (count_in-set k a n per, get_or-insert (pos 0) k a n totals)
      (elim (Bool-cases (str_eq k a)) [ inl y ↦ rw y refl | inr m ↦ rw m (h a) ])

written :
    (raw : Json) (total : ℤ) (per : Fields) (totals : Dict ℤ)
    → as_int raw ≡ some total
    → ((a : String) → count_in a per ≡ some (used_by totals a))
    → all_ints per ≡ true
    → (c : Counted (holds (obj (payload raw per))) total (used_by totals)) × (all_ints c.counts
        ≡ true)
written raw total per totals e h ok =
    let (c, same) = payload-Counted raw total per (used_by totals) e h in (c, rw same ok)

module _ (m : ℕ) (r : ApprovalRequest) (spend : ℤ) (file : StateFile) (total : ℤ) (pc : Dict ℤ)
    (s : r.spend_cents ≡ some spend) (c : Counted file total (used_by pc))
    (ok : all_ints c.counts ≡ true) where
  abbrev with_flag : Bool → SpendingBudgetProvider
  with_flag g = record { max_cents = m; per_action = g; total = total; per_action_totals = pc }

  abbrev provider : Bool → FileSpendingBudgetProvider
  provider g = record { max_cents = m; per_action = g }

  charge_action-Plans :
      (raw : Json)
      → as_int raw ≡ some total
      → Plans
          (Represents (provider true))
          file
          (with_flag true)
          (Spending.decide r (with_flag true))
          (charge_action m r.action_name spend raw c.counts)
  unfolding charge_action Spending.decide
  charge_action-Plans raw e =
      let used = get_or (pos 0) r.action_name pc in
      let w =
        written raw total _ (insert r.action_name (used +ℤ spend) pc) e
          (totals_step r.action_name (used +ℤ spend) c.counts pc c.count_eq)
          (all_ints-set r.action_name (used +ℤ spend) c.counts ok) in
      rw (c.count_eq r.action_name, s, charge_action)
        (Plans-if (Represents (provider true)) (ltb_ℤ (pos m) (used +ℤ spend)) file (with_flag true)
          _ _ _ _ (refl, (refl, refl, c, ok)) (refl, (refl, refl, w.0, w.1)))

  charge_total-Plans :
      Plans
        (Represents (provider false))
        file
        (with_flag false)
        (Spending.decide r (with_flag false))
        (charge_total m spend total c.counts)
  unfolding charge_total Spending.decide as_int
  charge_total-Plans =
      let w = written (int (total +ℤ spend)) (total +ℤ spend) c.counts pc refl c.count_eq ok in
      rw (s, charge_total)
        (Plans-if (Represents (provider false)) (ltb_ℤ (pos m) (total +ℤ spend)) file
          (with_flag false) _ _ _ _ (refl, (refl, refl, c, ok)) (refl, (refl, refl, w.0, w.1)))

  charge-Plans :
      (g : Bool) (raw : Json)
      → as_int raw ≡ some total
      → Plans
          (Represents (provider g))
          file
          (with_flag g)
          (Spending.decide r (with_flag g))
          (charge (provider g) r.action_name spend raw (some total) (some c.counts))
  unfolding charge
  charge-Plans true raw e = rw (charge, ok) (charge_action-Plans raw e)
  charge-Plans false raw e = rw (charge, ok) charge_total-Plans

  pub region-Plans :
      (g : Bool)
      → Plans
          (Represents (provider g))
          file
          (with_flag g)
          (Spending.decide r (with_flag g))
          (region (provider g) r.action_name spend c.read)
  unfolding region
  region-Plans g = rw (c.total_eq, c.counts_eq) (charge-Plans g _ (unfold total_in in c.total_eq))
