-- ===== src/Canonical/Cyclic.antt =====
-- Which values `canonicalize` refuses: those from which the traversal could go on for ever.
use tesera.Common.{
  ℕ, zero, suc, ◌≡◌, refl, ◌⊎◌, inl, inr, Bool, true, false, Bool-cases, List, [], ◌∷◌, String,
  if◌then◌else◌, some, none, Option,
}
use tesera.Json.{Json}
use tesera.Canonical.{
  Value, Store, Object, Walked, walked, failed, walk, walk_value, walk_object, walk_fields,
  walk_items, walk_dict, map_walked, canonicalize, is_seen, object, dict, named, sequence, opaque,
  string_keys, combine, cyclic, CanonicalizationError,
}

abbrev pub is_walked {ℓ} : {A : Type ℓ} → Walked A → Bool
is_walked (walked _ _) = true
is_walked (failed _) = false

-- A value is one of a list.
abbrev pub IsOneOf : Value → List Value → Type 0
IsOneOf v [] = ⊥
IsOneOf v (w ∷ ws) = (v ≡ w) ⊎ IsOneOf v ws

combine-walked {ℓ} :
    {A B C : Type ℓ} (f : A → B → C) (m : Walked A) (n : Walked B)
    → is_walked (combine f m n) ≡ true
    → (is_walked m ≡ true) × (is_walked n ≡ true)
unfolding combine
combine-walked f (failed e) n h = absurd (cc h)
combine-walked f (walked a xs) (failed e) h = absurd (cc h)
combine-walked f (walked a xs) (walked b ys) h = (refl, refl)

map-walked {ℓ} :
    {A B : Type ℓ} (f : A → B) (m : Walked A)
    → is_walked (map_walked f m) ≡ true
    → is_walked m ≡ true
map-walked f (walked a xs) h = refl
map-walked f (failed e) h = h

unless-walked :
    (b : Bool) (e : CanonicalizationError) (m : Walked Json)
    → is_walked (if b then failed e else m) ≡ true
    → is_walked m ≡ true
unless-walked true e m h = absurd (cc h)
unless-walked false e m h = h

module _ (is_sensitive : String → Bool) where
  -- The values of the fields whose names are not sensitive.
  unfoldable pub open_values : List (String × Value) → List Value
  open_values [] = []
  open_values ((k, v) ∷ items) =
      let rest = open_values items in if is_sensitive k then rest else v ∷ rest

  abbrev pub open_items : Option (List (String × Value)) → List Value
  unfolding open_values
  open_items none = []
  open_items (some items) = open_values items

  -- The values that the traversal expands below an object. A dict with a key that is no text is not
  -- expanded: it has none, and ends in a marker, also if it holds itself.
  unfoldable pub expanded_values : Object → List Value
  unfolding open_values string_keys
  expanded_values (dict items) = open_items (string_keys items)
  expanded_values (named items) = open_values items
  expanded_values (sequence vs) = vs
  expanded_values (opaque name) = []

module _ (python_str : Store → Value → String) (is_sensitive : String → Bool)
    (matches : String → Bool) where
  walk_fields-child :
      (store : Store) (d : Value → Walked Json) (v : Value) (items : List (String × Value))
      → IsOneOf v (open_values is_sensitive items)
      → is_walked (walk_fields python_str is_sensitive matches store d items) ≡ true
      → is_walked (d v) ≡ true
  unfolding walk_fields open_values
  walk_fields-child store d v [] h k = absurd h
  walk_fields-child store d v ((j, w) ∷ items) h k =
      let (first, rest) = combine-walked _ _ _ k in
      elim (Bool-cases (is_sensitive j)) [
        | inl y ↦ walk_fields-child store d v items (rw y at h) rest
        | inr m ↦ elim (rw m at h) [
          | inl e ↦ rw e (rw m at first)
          | inr later ↦ walk_fields-child store d v items later rest
        ]
      ]

  walk_items-child :
      (d : Value → Walked Json) (v : Value) (vs : List Value)
      → IsOneOf v vs
      → is_walked (walk_items python_str is_sensitive matches d vs) ≡ true
      → is_walked (d v) ≡ true
  unfolding walk_items
  walk_items-child d v [] h k = absurd h
  walk_items-child d v (w ∷ vs) (inl e) k = rw e ((combine-walked _ _ _ k).0)
  walk_items-child d v (w ∷ vs) (inr h) k = walk_items-child d v vs h ((combine-walked _ _ _ k).1)

  walk_dict-child :
      (store : Store) (d : Value → Walked Json) (v : Value) (items : Option (List (String × Value)))
      → IsOneOf v (open_items is_sensitive items)
      → is_walked (walk_dict python_str is_sensitive matches store d items) ≡ true
      → is_walked (d v) ≡ true
  unfolding open_items
  walk_dict-child store d v none h k = absurd h
  walk_dict-child store d v (some items) h k =
      walk_fields-child store d v items h (map-walked _ _ k)

  walk_object-child :
      (store : Store) (d : List ℕ → Value → Walked Json) (seen : List ℕ) (a : ℕ) (o : Object)
      (v : Value)
      → IsOneOf v (expanded_values is_sensitive o)
      → is_walked (walk_object python_str is_sensitive matches store d seen a o) ≡ true
      → is_walked (d (a ∷ seen) v) ≡ true
  unfolding walk_object expanded_values
  walk_object-child store d seen a (dict items) v h k =
      walk_dict-child store (d (a ∷ seen)) v _ h (unless-walked (is_seen a seen) cyclic _ k)
  walk_object-child store d seen a (named items) v h k =
      walk_fields-child store (d (a ∷ seen)) v items h
        (map-walked _ _ (unless-walked (is_seen a seen) cyclic _ k))
  walk_object-child store d seen a (sequence vs) v h k =
      walk_items-child (d (a ∷ seen)) v vs h
        (map-walked _ _ (unless-walked (is_seen a seen) cyclic _ k))
  walk_object-child store d seen a (opaque name) v h k = absurd h

  walk-endless :
      (store : Store) (Endless : ℕ → Type 0) (left : ℕ) (seen : List ℕ) (a : ℕ)
      → ((b : ℕ)
          → Endless b
          → (c : ℕ) × Endless c × IsOneOf (object c) (expanded_values is_sensitive (store b)))
      → Endless a
      → is_walked (walk python_str is_sensitive matches store left seen (object a)) ≡ true
      → ⊥
  unfolding walk walk_value
  walk-endless store Endless zero seen a go e k = cc k
  walk-endless store Endless (suc left) seen a go e k =
      let (c, e', edge) = go a e in
      walk-endless store Endless left (a ∷ seen) c go e' (
        walk_object-child store (walk python_str is_sensitive matches store left) seen a (store a)
          (object c) edge k)

  -- Let each object of a set be a dict whose keys are all texts, a dataclass instance or named tuple,
  -- a list or another tuple, that holds an object of the set, under no sensitive name. Then every
  -- object of the set is refused: a cycle of such containers, however long, never ends in evidence.
  pub cycles_are_refused :
      (store : Store) (Endless : ℕ → Type 0) (a : ℕ)
      → ((b : ℕ)
          → Endless b
          → (c : ℕ) × Endless c × IsOneOf (object c) (expanded_values is_sensitive (store b)))
      → Endless a
      → is_walked (canonicalize python_str is_sensitive matches store (object a)) ≡ false
  unfolding canonicalize
  cycles_are_refused store Endless a go e = elim (Bool-cases _) [
    | inl y ↦ absurd (walk-endless store Endless 65 [] a go e y)
    | inr n ↦ n
  ]
