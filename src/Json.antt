-- ===== src/Json.antt =====
-- JSON values as `json.loads` of Python returns them, and the operations on dicts that the
-- modules use. A float is n / 2^d, as every finite double is. A dict holds each key once.
pub mod Equality
pub mod Payload
use tesera.Common.{
  ℕ, ◌*◌, ◌^◌, Bool, true, false, Option, none, some, String, ◌≡◌, refl, ◌&&◌, ◌==◌, str_eq, eq_iff,
  eq_refl, arith, if◌then◌else◌, ap, Option-cases, inl, inr,
}
use tesera.Common.Int.{ℤ, pos, negsuc, pos_part, neg_part}

mutual
  pub data Json : Type 0 where
    null : Json
    bool : Bool → Json
    int : ℤ → Json
    float : ℤ → ℕ → Json
    nan : Json
    infinity : Bool → Json
    str : String → Json
    arr : Items → Json
    obj : Fields → Json

  pub data Items : Type 0 where
    nil : Items
    cons : Json → Items → Items

  pub data Fields : Type 0 where
    end : Fields
    field : String → Json → Fields → Fields

-- An event of the journal is a JSON object.
abbrev pub Event : Type 0
Event = Fields

-- `event[k]` if the key is there.
unfoldable pub find : String → Fields → Option Json
find k end = none
find k (field j v fs) = if str_eq j k then some v else find k fs

-- `event.get(k)`: None, which is null, for a missing key.
unfoldable pub get : String → Fields → Json
unfolding find
get k fs = elim (find k fs) [ none ↦ null | some v ↦ v ]

-- `k in event`
unfoldable pub has : String → Fields → Bool
unfolding find
has k fs = elim (find k fs) [ none ↦ false | some _ ↦ true ]

-- The text, if `isinstance(v, str)`.
unfoldable pub as_str : Json → Option String
as_str (str s) = some s
as_str _ = none

-- `v == "..."` for a text, which no other JSON value equals; also `str(v) == "..."` for a text
-- that is the `str` of no other JSON value.
unfoldable pub is_str : String → Json → Bool
unfolding as_str
is_str s v = elim (as_str v) [ none ↦ false | some t ↦ str_eq t s ]

-- `v is True`
unfoldable pub is_true : Json → Bool
is_true (bool b) = b
is_true _ = false

-- The integer, if `isinstance(v, int)`: a Python bool is one.
unfoldable pub as_int : Json → Option ℤ
as_int (int n) = some n
as_int (bool b) = some (pos (if b then 1 else 0))
as_int _ = none

-- The object, if `isinstance(v, dict)`.
unfoldable pub as_obj : Json → Option Fields
as_obj (obj fs) = some fs
as_obj _ = none

pub is_str_refl : (s : String) → is_str s (str s) ≡ true
unfolding is_str
is_str_refl s = eq_refl s

-- A value that equals the text `s` is that text.
pub is_str→as_str : (s : String) (v : Json) → is_str s v ≡ true → as_str v ≡ some s
unfolding is_str
is_str→as_str s v h = elim (Option-cases (as_str v)) [
  | inl e ↦ absurd (cc (rw (e, is_str) at h))
  | inr (t, e) ↦ rw e (ap some ((eq_iff t s).0 (rw (e, is_str) at h)))
]
