-- ===== src/Verification/Coverage.antt =====
-- `_checkpoint_coverage` and `_truncation_issue` of src/tesera/verification.py.
use tesera.Common.{
  ℕ, zero, suc, ◌+◌, ◌/◌, ◌^◌, Bool, true, false, Option, none, some, List, [], ◌∷◌, ◌++◌, ◌*◌, ltb,
  if◌then◌else◌,
}
use tesera.Common.Int.{ℤ, pos, negsuc, pos_part, neg_part, ltb_ℤ}
use tesera.Json.{Json, Event, null, bool, int, float, nan, infinity, str, arr, obj, find}
use tesera.Verification.{
  IssueCode, Checked, value, raises, type_error, key_error, value_error, overflow_error, ◌>>=◌,
  Python, issue_if, checkpoint_not_found, checkpoint_truncation,
}

-- -(n) for a natural number.
abbrev pub negate : ℕ → ℤ
negate zero = pos 0
negate (suc n) = negsuc n

-- `int(v)`: a float is cut off towards zero.
unfoldable pub to_int : Python → Json → Checked ℤ
to_int py (int n) = value n
to_int py (bool b) = value (pos (if b then 1 else 0))
to_int py (float (pos n) d) = value (pos (n / 2 ^ d))
to_int py (float (negsuc n) d) = value (negate (suc n / 2 ^ d))
to_int py (str s) = elim (py.parse_int s) [ none ↦ raises value_error | some n ↦ value n ]
to_int py nan = raises value_error
to_int py (infinity b) = raises overflow_error
to_int py null = raises type_error
to_int py (arr xs) = raises type_error
to_int py (obj fs) = raises type_error

-- `event["checkpoint_count"]`
unfoldable pub count_of : Event → Checked Json
unfolding find
count_of event = elim (find "checkpoint_count" event) [ none ↦ raises key_error | some v ↦ value v ]

unfoldable pub truncation_issue : Python → ℕ → Event → Checked (List IssueCode)
unfolding count_of to_int
truncation_issue py total checkpoint = do
  v ← count_of checkpoint
  count ← to_int py v
  value (issue_if (ltb_ℤ (pos total) count) checkpoint_truncation)

-- `a < b` on two counts: only numbers compare with numbers, and texts with texts; the second is
-- an integer here.
unfoldable pub count_lt : Json → ℤ → Checked Bool
count_lt (int n) m = value (ltb_ℤ n m)
count_lt (bool b) m = value (ltb_ℤ (pos (if b then 1 else 0)) m)
count_lt (float n d) m =
    value (ltb (pos_part n + neg_part m * 2 ^ d) (pos_part m * 2 ^ d + neg_part n))
count_lt nan m = value false
count_lt (infinity negative) m = value negative
count_lt null m = raises type_error
count_lt (str s) m = raises type_error
count_lt (arr xs) m = raises type_error
count_lt (obj fs) m = raises type_error

-- `max(candidates, key=...)` of the newest checkpoint and a witness that is in the journal, whose
-- count is an integer: the first of equals wins.
unfoldable pub effective : Python → Option Event → Option Event → Checked (Option Event)
unfolding count_of to_int count_lt
effective py none none = value none
effective py (some newest) none = do v ← count_of newest; value (some newest)
effective py none (some witness) = do v ← count_of witness; value (some witness)
effective py (some newest) (some witness) = do
  v ← count_of newest
  w ← count_of witness
  m ← to_int py w
  less ← count_lt v m
  value (some (if less then witness else newest))

-- The issue for a witness that is not in the journal, with the truncation that it proves.
unfoldable pub absent_witness : Python → ℕ → Event → Checked (List IssueCode)
unfolding truncation_issue
absent_witness py total witness = do
  cut ← truncation_issue py total witness
  value (checkpoint_not_found ∷ cut)

unfoldable pub effective_issue : Python → ℕ → Option Event → Checked (List IssueCode)
unfolding truncation_issue
effective_issue py total none = value []
effective_issue py total (some checkpoint) = truncation_issue py total checkpoint

-- `_checkpoint_coverage`, on the newest checkpoint of the journal, the witness, whether it was
-- found, and the number of events.
unfoldable pub checkpoint_coverage :
    Python → Option Event → Option Event → Bool → ℕ → Checked (List IssueCode)
unfolding effective effective_issue absent_witness
checkpoint_coverage py newest none found total = do
  e ← effective py newest none
  effective_issue py total e
checkpoint_coverage py newest (some witness) true total = do
  e ← effective py newest (some witness)
  effective_issue py total e
checkpoint_coverage py newest (some witness) false total = do
  absent ← absent_witness py total witness
  e ← effective py newest none
  cut ← effective_issue py total e
  value (absent ++ cut)
