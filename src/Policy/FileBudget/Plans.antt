-- ===== src/Policy/FileBudget/Plans.antt =====
-- One `decide` of `FileBudgetProvider` on a file that represents a `BudgetProvider`: the locked
-- region plans what the budget in memory decides.
use tesera.Common.{
  ◌≡◌, refl, Bool, true, false, some, inl, inr, Bool-cases, leb, ◌+◌, ℕ, str_eq, String,
}
use tesera.Common.Int.{ℤ, pos, leb_ℤ-pos, +ℤ-pos}
use tesera.Common.Dict.{Dict, insert, get_or, get_or-insert}
use tesera.Json.{Json, as_int, Fields, int}
use tesera.Json.Payload.{set}
use tesera.Policy.{ApprovalRequest}
use tesera.Policy.StateFile.{StateFile}
use tesera.Policy.StateFile.Counts.{Counted, payload-Counted, count_in-set, count_in, total_in}
use tesera.Policy.StateFile.Refines.{Plans, Plans-if}
use tesera.Policy.FileBudget.{FileBudgetProvider, region, charge, charge_action, charge_total}
use tesera.Policy.Budget.{BudgetProvider}
use tesera.Policy.Budget

-- The file holds the counts of the budget in memory.
abbrev pub Represents : FileBudgetProvider → StateFile → BudgetProvider → Type 0
Represents p file b =
    (p.max_calls ≡ b.max_calls)
    × (p.per_action ≡ b.per_action)
    × Counted file (pos b.total) (λ a. pos (get_or 0 a b.per_action_counts))

abbrev pub used_by : Dict ℕ → String → ℤ
used_by counts a = pos (get_or 0 a counts)

counts_step :
    (k : String) (n : ℕ) (per : Fields) (pc : Dict ℕ)
    → ((a : String) → count_in a per ≡ some (used_by pc a))
    → (a : String) → count_in a (set k (int (pos n)) per) ≡ some (used_by (insert k n pc) a)
counts_step k n per pc h a =
    rw (count_in-set k a (pos n) per, get_or-insert 0 k a n pc)
      (elim (Bool-cases (str_eq k a)) [ inl y ↦ rw y refl | inr m ↦ rw m (h a) ])

module _ (m : ℕ) (r : ApprovalRequest) (file : StateFile) (total : ℕ) (pc : Dict ℕ) where
  abbrev with_flag : Bool → BudgetProvider
  with_flag g = record { max_calls = m; per_action = g; total = total; per_action_counts = pc }

  abbrev provider : Bool → FileBudgetProvider
  provider g = record { max_calls = m; per_action = g }

  charge_action-Plans :
      (raw : Json) (per : Fields)
      → Counted file (pos total) (used_by pc)
      → as_int raw ≡ some (pos total)
      → ((a : String) → count_in a per ≡ some (used_by pc a))
      → Plans
          (Represents (provider true))
          file
          (with_flag true)
          (Budget.decide r (with_flag true))
          (charge_action m r.action_name raw per)
  unfolding charge_action Budget.decide
  charge_action-Plans raw per c e h =
      let used = get_or 0 r.action_name pc in
      rw (h r.action_name, charge_action, leb_ℤ-pos m used, +ℤ-pos used 1)
        (Plans-if (Represents (provider true)) (leb m used) file (with_flag true) _ _ _ _
          (refl, (refl, refl, c))
          (
            refl,
            (
              refl,
              refl,
              (payload-Counted raw (pos total) _ _ e
                  (counts_step r.action_name (used + 1) per pc h)).0,
            ),
          ))

  charge_total-Plans :
      (per : Fields)
      → Counted file (pos total) (used_by pc)
      → ((a : String) → count_in a per ≡ some (used_by pc a))
      → Plans
          (Represents (provider false))
          file
          (with_flag false)
          (Budget.decide r (with_flag false))
          (charge_total m (pos total) per)
  unfolding charge_total Budget.decide as_int
  charge_total-Plans per c h =
      rw (charge_total, leb_ℤ-pos m total, +ℤ-pos total 1)
        (Plans-if (Represents (provider false)) (leb m total) file (with_flag false) _ _ _ _
          (refl, (refl, refl, c))
          (
            refl,
            (
              refl,
              refl,
              (payload-Counted (int (pos (total + 1))) (pos (total + 1)) per _ refl h).0,
            ),
          ))

  charge-Plans :
      (g : Bool) (raw : Json) (per : Fields)
      → Counted file (pos total) (used_by pc)
      → as_int raw ≡ some (pos total)
      → ((a : String) → count_in a per ≡ some (used_by pc a))
      → Plans
          (Represents (provider g))
          file
          (with_flag g)
          (Budget.decide r (with_flag g))
          (charge (provider g) r.action_name raw (some (pos total)) (some per))
  unfolding charge
  charge-Plans true raw per c e h = charge_action-Plans raw per c e h
  charge-Plans false raw per c e h = charge_total-Plans per c h

  -- Every call on a file that represents the budget follows it.
  pub region-Plans :
      (g : Bool) (c : Counted file (pos total) (used_by pc))
      → Plans
          (Represents (provider g))
          file
          (with_flag g)
          (Budget.decide r (with_flag g))
          (region (provider g) r c.read)
  unfolding region
  region-Plans g c =
      rw (c.total_eq, c.counts_eq)
        (charge-Plans g _ c.counts c (unfold total_in in c.total_eq) c.count_eq)
