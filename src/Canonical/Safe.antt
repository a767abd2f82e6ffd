-- ===== src/Canonical/Safe.antt =====
-- `canonicalize` returns clean values only: the branches of `_walk`, and the recursion.
use tesera.Common.{
  ℕ, zero, suc, ◌≤◌, ◌≡◌, refl, inl, inr, Bool, true, false, Bool-cases, List, [], ◌∷◌, String,
  arith, subst, if◌then◌else◌, some, none, Option,
}
use tesera.Json.{Json, Items, Fields, str, arr, obj}
use tesera.Json.Payload.{is_finite}
use tesera.Canonical.{
  Value, Store, Object, Walked, walked, failed, CanonicalizationError, cyclic, marker, is_secret,
  walk, walk_value, walk_object, walk_dict, map_walked, redact, canonicalize, is_seen, py_none,
  py_bool, py_int, py_float, py_nan, py_infinity, py_str, object, dict, named, sequence, opaque,
  string_keys,
}
use tesera.Canonical.Clean.{
  depth, IsClean, Yields, IsSafe, AreSafe, HasSafeFields, redact-IsSafe, walk_fields-AreSafe,
  walk_items-AreSafe,
}

module _ (python_str : Store → Value → String) (is_sensitive : String → Bool)
    (matches : String → Bool) where
  as_object-IsSafe :
      (n : ℕ) (m : Walked Fields)
      → Yields (HasSafeFields python_str is_sensitive matches n) m
      → Yields (IsSafe python_str is_sensitive matches (suc n)) (map_walked (λ fs. obj fs) m)
  unfolding IsClean is_finite depth
  as_object-IsSafe n (walked fs xs) h = (h.0, h.1, omega (arith, h.2))
  as_object-IsSafe n (failed e) h = tt

  as_array-IsSafe :
      (n : ℕ) (m : Walked Items)
      → Yields (AreSafe python_str is_sensitive matches n) m
      → Yields (IsSafe python_str is_sensitive matches (suc n)) (map_walked (λ js. arr js) m)
  unfolding IsClean is_finite depth
  as_array-IsSafe n (walked js xs) h = (h.0, h.1, omega (arith, h.2))
  as_array-IsSafe n (failed e) h = tt

  marker-IsSafe :
      (n : ℕ) (name : String) → IsSafe python_str is_sensitive matches n (str (marker name))
  unfolding IsClean is_finite depth
  marker-IsSafe n name = (inr (inl (name, refl)), refl, omega arith)

  walk_dict-IsSafe :
      (n : ℕ) (store : Store) (descend : Value → Walked Json)
      (items : Option (List (String × Value)))
      → ((w : Value) → Yields (IsSafe python_str is_sensitive matches n) (descend w))
      → Yields
          (IsSafe python_str is_sensitive matches (suc n))
          (walk_dict python_str is_sensitive matches store descend items)
  walk_dict-IsSafe n store descend none h = marker-IsSafe (suc n) "mapping-with-non-string-keys"
  walk_dict-IsSafe n store descend (some items) h =
      as_object-IsSafe n _
        (walk_fields-AreSafe python_str is_sensitive matches n store descend items h)

  -- A test that fails the traversal.
  unless-IsSafe :
      (n : ℕ) (b : Bool) (e : CanonicalizationError) (m : Walked Json)
      → Yields (IsSafe python_str is_sensitive matches n) m
      → Yields (IsSafe python_str is_sensitive matches n) (if b then failed e else m)
  unless-IsSafe n true e m h = tt
  unless-IsSafe n false e m h = h

  walk_object-IsSafe :
      (n : ℕ) (store : Store) (descend : List ℕ → Value → Walked Json) (seen : List ℕ) (a : ℕ)
      (o : Object)
      → ((s : List ℕ) (w : Value) → Yields (IsSafe python_str is_sensitive matches n) (descend s w))
      → Yields
          (IsSafe python_str is_sensitive matches (suc n))
          (walk_object python_str is_sensitive matches store descend seen a o)
  unfolding walk_object
  walk_object-IsSafe n store descend seen a (dict items) h =
      unless-IsSafe (suc n) (is_seen a seen) cyclic _
        (walk_dict-IsSafe n store (descend (a ∷ seen)) (string_keys items) (h (a ∷ seen)))
  walk_object-IsSafe n store descend seen a (named items) h =
      unless-IsSafe (suc n) (is_seen a seen) cyclic _ (
        as_object-IsSafe n _ (
          walk_fields-AreSafe python_str is_sensitive matches n store (descend (a ∷ seen)) items
            (h (a ∷ seen))))
  walk_object-IsSafe n store descend seen a (sequence vs) h =
      unless-IsSafe (suc n) (is_seen a seen) cyclic _ (
        as_array-IsSafe n _ (
          walk_items-AreSafe python_str is_sensitive matches n (descend (a ∷ seen)) vs
            (h (a ∷ seen))))
  walk_object-IsSafe n store descend seen a (opaque name) h = marker-IsSafe (suc n) name

  walk_text-IsSafe :
      (n : ℕ) (store : Store) (s : String)
      → Yields (IsSafe python_str is_sensitive matches n) (
          if is_secret matches s
          then redact python_str is_sensitive matches store (py_str s)
          else walked (str s) [])
  unfolding IsClean is_finite depth
  walk_text-IsSafe n store s = elim (Bool-cases (is_secret matches s)) [
    | inl y ↦ rw y (redact-IsSafe python_str is_sensitive matches n)
    | inr m ↦ rw m (inr (inr m), refl, omega arith)
  ]

  walk_value-IsSafe :
      (n : ℕ) (store : Store) (descend : List ℕ → Value → Walked Json) (seen : List ℕ) (v : Value)
      → ((s : List ℕ) (w : Value) → Yields (IsSafe python_str is_sensitive matches n) (descend s w))
      → Yields
          (IsSafe python_str is_sensitive matches (suc n))
          (walk_value python_str is_sensitive matches store descend seen v)
  unfolding walk_value IsClean is_finite depth
  walk_value-IsSafe n store descend seen py_none h = (tt, refl, omega arith)
  walk_value-IsSafe n store descend seen (py_bool b) h = (tt, refl, omega arith)
  walk_value-IsSafe n store descend seen (py_int k) h = (tt, refl, omega arith)
  walk_value-IsSafe n store descend seen (py_float k d) h = (tt, refl, omega arith)
  walk_value-IsSafe n store descend seen py_nan h = tt
  walk_value-IsSafe n store descend seen (py_infinity b) h = tt
  walk_value-IsSafe n store descend seen (py_str s) h = walk_text-IsSafe (suc n) store s
  walk_value-IsSafe n store descend seen (object a) h =
      walk_object-IsSafe n store descend seen a (store a) h

  walk-IsSafe :
      (store : Store) (left : ℕ) (seen : List ℕ) (v : Value)
      → Yields
          (IsSafe python_str is_sensitive matches left)
          (walk python_str is_sensitive matches store left seen v)
  unfolding walk
  walk-IsSafe store zero seen v = tt
  walk-IsSafe store (suc left) seen v =
      walk_value-IsSafe left store _ seen v (λ s w. walk-IsSafe store left s w)

  -- Whatever a store holds, cyclic or not, a value that `canonicalize` returns is clean: each field
  -- with a sensitive name holds the literal, and each text is the literal, a type marker, or
  -- matches no pattern. It holds no NaN and no infinity, and at most 65 containers nest.
  pub canonicalize-IsClean :
      (store : Store) (v : Value) (j : Json) (collected : List String)
      → canonicalize python_str is_sensitive matches store v ≡ walked j collected
      → IsClean is_sensitive matches j × (is_finite j ≡ true) × (depth j ≤ 65)
  unfolding canonicalize
  canonicalize-IsClean store v j collected e =
      subst (λ m. Yields (IsSafe python_str is_sensitive matches 65) m) e
        (walk-IsSafe store 65 [] v)
