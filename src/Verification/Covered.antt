-- ===== src/Verification/Covered.antt =====
-- Truncation against a checkpoint witness: `_checkpoint_coverage` and `_load_checkpoint_witness`
-- of src/tesera/verification.py.
use tesera.Common.{
  ℕ, zero, suc, ◌/◌, ◌*◌, ◌^◌, ◌≤◌, ◌<◌, Bool, true, false, Option, none, some, [], ◌≡◌, refl, ap,
  sym, subst, ◌∙◌, arith, if◌then◌else◌, ltb,
}
use tesera.Common.Int.{ℤ, pos, negsuc, ltb_ℤ}
use tesera.Json.{Json, Event, null, bool, int, float, nan, infinity, str, arr, obj}
use tesera.Verification.{value, ◌>>=◌, Python, checkpoint_truncation}
use tesera.Verification.Coverage.{
  negate, to_int, count_of, count_lt, truncation_issue, effective, effective_issue, absent_witness,
  checkpoint_coverage,
}
use tesera.Verification.Facts.{bind-value, value-inj, append-empty, issue_if-none}
use native.Mathlib.Nat.{le-div_iff_mul-le, one-le-pow, div-lt_iff_lt-mul}

-- No more than `total` events are counted by the checkpoint, whose count is an integer.
pub record Covers (py : Python) (total : ℕ) (checkpoint : Event) : Type 0 where
  pub stored : Json
  pub is_stored : count_of checkpoint ≡ value stored
  pub count : ℤ
  pub is_count : to_int py stored ≡ value count
  pub is_covered : ltb_ℤ (pos total) count ≡ false

truncation_issue-none :
    (py : Python) (total : ℕ) (checkpoint : Event)
    → truncation_issue py total checkpoint ≡ value []
    → Covers py total checkpoint
unfolding truncation_issue
truncation_issue-none py total checkpoint h =
    let (v, stored, rest) = bind-value (count_of checkpoint) _ [] h in
    let (n, counted, all) = bind-value (to_int py v) _ [] rest in
    record {
      stored = v;
      is_stored = stored;
      count = n;
      is_count = counted;
      is_covered = issue_if-none _ checkpoint_truncation (value-inj _ _ all);
    }

pow_pos : (d : ℕ) → zero < 2 ^ d
pow_pos d = one-le-pow d 2 (omega arith)

div-floor : (m n d : ℕ) → m * 2 ^ d ≤ n → m ≤ n / 2 ^ d
div-floor m n d h = (le-div_iff_mul-le (pow_pos d)).1 h

div-ceiling : (n k d : ℕ) → n ≤ k * 2 ^ d → n / 2 ^ d ≤ k
div-ceiling n k d h =
    let up = (div-lt_iff_lt-mul {k = 2 ^ d} {x = n} {y = suc k} (pow_pos d)).1 in
    omega (arith, up (omega (arith, pow_pos d)))

below_fails : (a b : ℕ) → ltb a b ≡ false → b ≤ a
below_fails a b h = ground arith

not_below : (a b : ℕ) → b ≤ a → ltb a b ≡ false
not_below a b h = ground arith

negate-not_below : (x m : ℕ) → x ≤ suc m → ltb_ℤ (negate x) (negsuc m) ≡ false
negate-not_below zero m h = not_below _ _ (omega arith)
negate-not_below (suc x) m h = not_below _ _ (omega arith)

-- A count that is not below `m` is not below it once it is cut off towards zero.
count_lt-to_int :
    (py : Python) (v : Json) (m n : ℤ)
    → count_lt v m ≡ value false
    → to_int py v ≡ value n
    → ltb_ℤ n m ≡ false
unfolding count_lt to_int
count_lt-to_int py (int x) m n h k =
    subst (λ n. ltb_ℤ n m ≡ false) (value-inj _ _ k) (value-inj _ _ h)
count_lt-to_int py (bool b) m n h k =
    subst (λ n. ltb_ℤ n m ≡ false) (value-inj _ _ k) (value-inj _ _ h)
count_lt-to_int py (float (pos x) d) (pos m) n h k =
    subst (λ n. ltb_ℤ n (pos m) ≡ false) (value-inj _ _ k)
      (not_below _ _
        (omega (arith, div-floor m x d (omega (arith, below_fails _ _ (value-inj _ _ h))))))
count_lt-to_int py (float (pos x) d) (negsuc m) n h k =
    subst (λ n. ltb_ℤ n (negsuc m) ≡ false) (value-inj _ _ k) (not_below _ _ (omega arith))
count_lt-to_int py (float (negsuc x) d) (pos m) n h k =
    absurd (omega (arith, below_fails _ _ (value-inj _ _ h)))
count_lt-to_int py (float (negsuc x) d) (negsuc m) n h k =
    subst (λ n. ltb_ℤ n (negsuc m) ≡ false) (value-inj _ _ k)
      (negate-not_below (suc x / 2 ^ d) m
        (div-ceiling (suc x) (suc m) d (omega (arith, below_fails _ _ (value-inj _ _ h)))))
count_lt-to_int py (str s) m n h k = absurd (cc h)
count_lt-to_int py nan m n h k = absurd (cc k)
count_lt-to_int py (infinity b) m n h k = absurd (cc k)
count_lt-to_int py null m n h k = absurd (cc h)
count_lt-to_int py (arr xs) m n h k = absurd (cc h)
count_lt-to_int py (obj fs) m n h k = absurd (cc h)

not_below_trans : (a b c : ℤ) → ltb_ℤ a b ≡ false → ltb_ℤ b c ≡ false → ltb_ℤ a c ≡ false
not_below_trans a b c h k = not_below _ _ (omega (arith, below_fails _ _ h, below_fails _ _ k))

-- The larger of the two counts is covered, so the count of the witness is.
pick_case :
    (py : Python) (total : ℕ) (newest witness : Event) (v w : Json) (m : ℤ) (less : Bool)
    → count_of newest ≡ value v
    → count_of witness ≡ value w
    → to_int py w ≡ value m
    → count_lt v m ≡ value less
    → truncation_issue py total (if less then witness else newest) ≡ value []
    → Covers py total witness
pick_case py total newest witness v w m true hv hw hm hl h =
    truncation_issue-none py total witness h
pick_case py total newest witness v w m false hv hw hm hl h =
    let k = truncation_issue-none py total newest h in
    let same = value-inj _ _ (sym k.is_stored ∙ hv) in
    record {
      stored = w;
      is_stored = hw;
      count = m;
      is_count = hm;
      is_covered =
          not_below_trans (pos total) k.count m k.is_covered
            (count_lt-to_int py v m k.count hl (ap (to_int py) (sym same) ∙ k.is_count));
    }

-- The effective checkpoint of a journal with the witness counts at least what the witness counts.
effective-Covers :
    (py : Python) (total : ℕ) (newest : Option Event) (witness : Event)
    → (effective py newest (some witness) >>= effective_issue py total) ≡ value []
    → Covers py total witness
unfolding effective effective_issue
effective-Covers py total none witness h =
    let (e, picked, rest) = bind-value (do v ← count_of witness; value (some witness)) _ [] h in
    let (v, _, same) = bind-value (count_of witness) _ _ picked in
    truncation_issue-none py total witness
      (subst (λ e. effective_issue py total e ≡ value []) (sym (value-inj _ _ same)) rest)
effective-Covers py total (some newest) witness h =
    let (e, picked, rest) = bind-value (effective py (some newest) (some witness)) _ [] h in
    let (v, hv, r) = bind-value (count_of newest) _ _ picked in
    let (w, hw, r) = bind-value (count_of witness) _ _ r in
    let (m, hm, r) = bind-value (to_int py w) _ _ r in
    let (less, hl, r) = bind-value (count_lt v m) _ _ r in
    pick_case py total newest witness v w m less hv hw hm hl
      (subst (λ e. effective_issue py total e ≡ value []) (sym (value-inj _ _ r)) rest)

-- A coverage without an issue: the witness is in the journal, which has as many events as it counts.
pub checkpoint_coverage-none :
    (py : Python) (newest : Option Event) (witness : Event) (found : Bool) (total : ℕ)
    → checkpoint_coverage py newest (some witness) found total ≡ value []
    → (found ≡ true) × Covers py total witness
unfolding checkpoint_coverage absent_witness
checkpoint_coverage-none py newest witness true total h =
    (refl, effective-Covers py total newest witness h)
checkpoint_coverage-none py newest witness false total h =
    let (absent, missing, rest) = bind-value (absent_witness py total witness) _ [] h in
    let (e, _, more) = bind-value (effective py newest none) _ [] rest in
    let (cut, _, all) = bind-value (effective_issue py total e) _ [] more in
    let (cut', _, added) = bind-value (truncation_issue py total witness) _ absent missing in
    absurd (cc ((append-empty absent cut (value-inj _ _ all)).0, value-inj _ _ added))
