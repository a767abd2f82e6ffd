-- ===== src/Policy/StateFile/Counts.antt =====
-- A state file that keeps a total and a number for each action, as the two budgets do.
use tesera.Common.{◌≡◌, refl, Option, none, some, String, if◌then◌else◌, str_eq, arith}
use tesera.Common.Int.{ℤ, pos}
use tesera.Json.{Json, Fields, int, obj, end, field, find, as_int, as_obj}
use tesera.Json.Payload.{set, find-set}
use tesera.Policy.StateFile.{
  StateFile, ReadState, no_state, state, missing, holds, read_json_state, get_default,
}

-- `{"total": 0, "per_action": {}}`
abbrev pub initial : Fields
initial = field "total" (int (pos 0)) (field "per_action" (obj end) end)

abbrev pub or_initial : Option Fields → Fields
or_initial none = initial
or_initial (some s) = s

-- `{"total": total, "per_action": per_action}`
abbrev pub payload : Json → Fields → Fields
payload total per_action = field "total" total (field "per_action" (obj per_action) end)

abbrev pub as_read : Option Fields → ReadState
as_read none = no_state
as_read (some s) = state s

unfoldable pub total_in : Fields → Option ℤ
unfolding as_int get_default
total_in s = as_int (get_default (int (pos 0)) "total" s)

unfoldable pub counts_in : Fields → Option Fields
unfolding as_obj get_default
counts_in s = as_obj (get_default (obj end) "per_action" s)

unfoldable pub count_in : String → Fields → Option ℤ
unfolding as_int get_default
count_in a per_action = as_int (get_default (int (pos 0)) a per_action)

-- The file can be read, and holds this total and these numbers.
pub record Counted (file : StateFile) (total : ℤ) (used : String → ℤ) : Type 0 where
  pub read : Option Fields
  pub read_eq : read_json_state file ≡ as_read read
  pub total_eq : total_in (or_initial read) ≡ some total
  pub counts : Fields
  pub counts_eq : counts_in (or_initial read) ≡ some counts
  pub count_eq : (a : String) → count_in a counts ≡ some (used a)

pub missing-Counted : (c : Counted missing (pos 0) (λ a. pos 0)) × (c.counts ≡ end)
unfolding read_json_state total_in counts_in count_in
missing-Counted = (
  record {
    read = none;
    read_eq = refl;
    total_eq = refl;
    counts = end;
    counts_eq = refl;
    count_eq = λ a. refl;
  },
  refl,
)

pub payload-Counted :
    (raw : Json) (total : ℤ) (per_action : Fields) (used : String → ℤ)
    → as_int raw ≡ some total
    → ((a : String) → count_in a per_action ≡ some (used a))
    → (c : Counted (holds (obj (payload raw per_action))) total used) × (c.counts ≡ per_action)
unfolding read_json_state total_in counts_in as_obj get_default find
payload-Counted raw total per_action used e h = (
  record {
    read = some (payload raw per_action);
    read_eq = refl;
    total_eq = e;
    counts = per_action;
    counts_eq = refl;
    count_eq = h;
  },
  refl,
)

pub count_in-set :
    (k a : String) (n : ℤ) (per_action : Fields)
    → count_in a (set k (int n) per_action) ≡ (if str_eq k a then some n else count_in a per_action)
unfolding count_in get_default as_int
count_in-set k a n per_action = ground (arith, find-set k a (int n) per_action)
