-- ===== src/Json/Equality.antt =====
-- Python's `==` on JSON values: numbers by value, a bool as the number that it is, lists by
-- position, dicts by key.
use tesera.Common.{
  ℕ, suc, ◌*◌, ◌^◌, Bool, true, false, Option, none, some, ◌≡◌, refl, ◌&&◌, ◌==◌, str_eq,
  if◌then◌else◌,
}
use tesera.Common.Int.{ℤ, pos, pos_part, neg_part}
use tesera.Json.{
  Json, Items, Fields, null, bool, int, float, nan, infinity, str, arr, obj, nil, cons, end, field,
  find, as_str,
}

-- The number n / 2^d that a value stands for.
abbrev number_of : Json → Option (ℤ × ℕ)
number_of (bool b) = some (pos (if b then 1 else 0), 0)
number_of (int n) = some (n, 0)
number_of (float n d) = some (n, d)
number_of _ = none

abbrev number_eq : ℤ × ℕ → ℤ × ℕ → Bool
number_eq (a, d) (b, e) =
    pos_part a * 2 ^ e == pos_part b * 2 ^ d && neg_part a * 2 ^ e == neg_part b * 2 ^ d

abbrev is_number : ℤ × ℕ → Json → Bool
is_number x v = elim (number_of v) [ none ↦ false | some y ↦ number_eq x y ]

abbrev items_of : Json → Option Items
items_of (arr xs) = some xs
items_of _ = none

abbrev fields_of : Json → Option Fields
fields_of (obj fs) = some fs
fields_of _ = none

abbrev is_null : Json → Bool
is_null null = true
is_null _ = false

abbrev is_infinity : Bool → Json → Bool
is_infinity b (infinity c) = if b then c else (if c then false else true)
is_infinity b _ = false

abbrev field_count : Fields → ℕ
field_count end = 0
field_count (field _ _ fs) = suc (field_count fs)

unfoldable mutual
  unfolding find as_str

  pub json_eq : Json → Json → Bool
  json_eq null w = is_null w
  json_eq (bool b) w = is_number (pos (if b then 1 else 0), 0) w
  json_eq (int n) w = is_number (n, 0) w
  json_eq (float n d) w = is_number (n, d) w
  json_eq nan w = false
  json_eq (infinity b) w = is_infinity b w
  json_eq (str s) w = elim (as_str w) [ none ↦ false | some t ↦ str_eq s t ]
  json_eq (arr xs) w = elim (items_of w) [ none ↦ false | some ys ↦ items_eq xs ys ]
  json_eq (obj fs) w = elim (fields_of w) [
    | none ↦ false
    | some gs ↦ field_count fs == field_count gs && fields_in fs gs
  ]

  pub items_eq : Items → Items → Bool
  items_eq nil nil = true
  items_eq nil (cons _ _) = false
  items_eq (cons x xs) nil = false
  items_eq (cons x xs) (cons y ys) = json_eq x y && items_eq xs ys

  pub fields_in : Fields → Fields → Bool
  fields_in end gs = true
  fields_in (field k v fs) gs =
      elim (find k gs) [ none ↦ false | some w ↦ json_eq v w ] && fields_in fs gs

json_eq_mixed : json_eq (bool true) (float (pos 2) 1) ≡ true
unfolding json_eq
json_eq_mixed = refl
