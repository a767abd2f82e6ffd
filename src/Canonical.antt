-- ===== src/Canonical.antt =====
-- `canonicalize` of src/tesera/canonical.py: one traversal that redacts and expands a value. A
-- Python value is an immediate or the address of an object in a store, so that values may share
-- objects and be cyclic. `MAX_DEPTH` bounds the recursion: it is on the levels that are left.
pub mod Names
pub mod Clean
pub mod Safe
pub mod Agree
pub mod Private
pub mod Cyclic
pub mod Declared
mod Tests
use tesera.Common.{
  ℕ, zero, suc, Bool, true, false, not, Option, none, some, List, [], ◌∷◌, ◌++◌, String, ◌==◌, ◌&&◌,
  str_eq, any_of, if◌then◌else◌,
}
use Prim.Native.String.{◌++◌ as str_append}
use tesera.Common.Int.{ℤ}
use tesera.Json.{Json, Items, Fields, null, bool, int, float, str, arr, obj, nil, cons, end, field}

pub data Value : Type 0 where
  py_none : Value
  py_bool : Bool → Value
  py_int : ℤ → Value
  py_float : ℤ → ℕ → Value
  py_nan : Value
  py_infinity : Bool → Value
  py_str : String → Value
  object : ℕ → Value

pub data Key : Type 0 where
  key : String → Key
  other_key : Key

-- An object, by how `_walk` expands it: a dict; a dataclass instance or a named tuple with its
-- field names; a list or another tuple; or an object of which only the type name is used.
pub data Object : Type 0 where
  dict : List (Key × Value) → Object
  named : List (String × Value) → Object
  sequence : List Value → Object
  opaque : String → Object

abbrev pub Store : Type 0
Store = ℕ → Object

pub data CanonicalizationError : Type 0 where
  too_deep cyclic not_finite : CanonicalizationError

-- The result of a traversal with the texts that it appended to `collected`, or its error.
pub data Walked {ℓ} (A : Type ℓ) : Type ℓ where
  walked : A → List String → Walked A
  failed : CanonicalizationError → Walked A

-- One traversal and then another: the first error counts.
unfoldable pub combine {ℓ} : {A B C : Type ℓ} → (A → B → C) → Walked A → Walked B → Walked C
combine f (failed e) m = failed e
combine f (walked a xs) (failed e) = failed e
combine f (walked a xs) (walked b ys) = walked (f a b) (xs ++ ys)

abbrev pub map_walked {ℓ} : {A B : Type ℓ} → (A → B) → Walked A → Walked B
map_walked f (walked a xs) = walked (f a) xs
map_walked f (failed e) = failed e

abbrev pub max_depth : ℕ
max_depth = 64

abbrev pub redacted : String
redacted = "<REDACTED>"

-- `_UNSUPPORTED_MARKER.format(type_name=...)`
abbrev pub marker : String → String
marker name = str_append "<unsupported:" (str_append name ">")

abbrev pub is_empty : String → Bool
is_empty s = str_eq s ""

abbrev pub keep_text : String → List String
keep_text s = if is_empty s then [] else s ∷ []

-- `if not all(isinstance(key, str) for key in value)`: the items, if every key is a text.
unfoldable pub string_keys : List (Key × Value) → Option (List (String × Value))
string_keys [] = some []
string_keys ((other_key, v) ∷ items) = none
string_keys ((key k, v) ∷ items) = elim (string_keys items) [
  | none ↦ none
  | some rest ↦ some ((k, v) ∷ rest)
]

abbrev pub is_seen : ℕ → List ℕ → Bool
is_seen a seen = any_of (λ b. a == b) seen

-- A text that is redacted for what it holds.
abbrev pub is_secret : (String → Bool) → String → Bool
is_secret matches s = not (is_empty s) && matches s

-- `python_str` is Python's `str` of a value in its store, `is_sensitive` is `is_sensitive_name`
-- for a fixed set of names, and `matches` says that one of the patterns is found in a text.
module _ (python_str : Store → Value → String) (is_sensitive : String → Bool)
    (matches : String → Bool) where
  abbrev pub collected_text : Store → Value → List String
  collected_text store py_none = []
  collected_text store (py_str s) = keep_text s
  collected_text store v = keep_text (python_str store v)

  -- `_redact`
  abbrev pub redact : Store → Value → Walked Json
  redact store v = walked (str redacted) (collected_text store v)

  -- The dict comprehension over names.
  unfoldable pub walk_fields : Store → (Value → Walked Json) → List (String × Value) → Walked Fields
  unfolding combine
  walk_fields store descend [] = walked end []
  walk_fields store descend ((k, v) ∷ items) =
      combine (λ j fs. field k j fs) (if is_sensitive k then redact store v else descend v)
        (walk_fields store descend items)

  -- The list comprehension.
  unfoldable pub walk_items : (Value → Walked Json) → List Value → Walked Items
  unfolding combine
  walk_items descend [] = walked nil []
  walk_items descend (v ∷ vs) = combine (λ j js. cons j js) (descend v) (walk_items descend vs)

  abbrev pub walk_dict :
      Store → (Value → Walked Json) → Option (List (String × Value)) → Walked Json
  walk_dict store descend none = walked (str (marker "mapping-with-non-string-keys")) []
  walk_dict store descend (some items) = map_walked (λ fs. obj fs) (walk_fields store descend items)

  -- The branches for containers; `descend` is `_walk` with one level less and one address more.
  unfoldable pub walk_object :
      Store → (List ℕ → Value → Walked Json) → List ℕ → ℕ → Object → Walked Json
  unfolding walk_fields walk_items string_keys
  walk_object store descend seen a (dict items) =
      if is_seen a seen
      then failed cyclic
      else walk_dict store (descend (a ∷ seen)) (string_keys items)
  walk_object store descend seen a (named items) =
      if is_seen a seen
      then failed cyclic
      else map_walked (λ fs. obj fs) (walk_fields store (descend (a ∷ seen)) items)
  walk_object store descend seen a (sequence vs) =
      if is_seen a seen
      then failed cyclic
      else map_walked (λ js. arr js) (walk_items (descend (a ∷ seen)) vs)
  walk_object store descend seen a (opaque name) = walked (str (marker name)) []

  -- The body of `_walk` below the depth test.
  unfoldable pub walk_value : Store → (List ℕ → Value → Walked Json) → List ℕ → Value → Walked Json
  unfolding walk_object
  walk_value store descend seen py_none = walked null []
  walk_value store descend seen (py_bool b) = walked (bool b) []
  walk_value store descend seen (py_int n) = walked (int n) []
  walk_value store descend seen (py_float n d) = walked (float n d) []
  walk_value store descend seen py_nan = failed not_finite
  walk_value store descend seen (py_infinity b) = failed not_finite
  walk_value store descend seen (py_str s) =
      if is_secret matches s then redact store (py_str s) else walked (str s) []
  walk_value store descend seen (object a) = walk_object store descend seen a (store a)

  -- `_walk`, by the levels that `MAX_DEPTH` leaves.
  unfoldable pub walk : Store → ℕ → List ℕ → Value → Walked Json
  unfolding walk_value
  walk store zero seen v = failed too_deep
  walk store (suc left) seen v = walk_value store (λ s w. walk store left s w) seen v

  -- `canonicalize`
  unfoldable pub canonicalize : Store → Value → Walked Json
  unfolding walk
  canonicalize store v = walk store (suc max_depth) [] v
