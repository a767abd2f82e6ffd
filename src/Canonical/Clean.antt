-- ===== src/Canonical/Clean.antt =====
-- What `canonicalize` lets through: whatever the store holds, its result names no sensitive field
-- without redacting it, holds no text that a pattern matches, and can be serialized.
use tesera.Common.{
  ℕ, suc, ◌≤◌, ◌≡◌, refl, ◌⊎◌, inl, inr, Bool, true, false, Bool-cases, List, [], ◌∷◌, String,
  arith, if◌then◌else◌,
}
use Prim.Native.Nat.{max}
use tesera.Json.{Json, Items, Fields, nan, infinity, str, arr, obj, nil, cons, end, field}
use tesera.Json.Payload.{is_finite, finite_items, finite_fields}
use tesera.Canonical.{
  Value, Store, Walked, walked, failed, redacted, marker, is_secret, walk_fields, walk_items,
  redact, combine,
}

-- How deep the containers of a JSON value nest.
unfoldable mutual
  pub depth : Json → ℕ
  depth (arr xs) = suc (items_depth xs)
  depth (obj fs) = suc (fields_depth fs)
  depth _ = 0

  pub items_depth : Items → ℕ
  items_depth nil = 0
  items_depth (cons x xs) = max (depth x) (items_depth xs)

  pub fields_depth : Fields → ℕ
  fields_depth end = 0
  fields_depth (field k v fs) = max (depth v) (fields_depth fs)

module _ (is_sensitive : String → Bool) (matches : String → Bool) where
  -- A text that may be in evidence: the literal, a type marker, or a text that is no secret.
  abbrev pub IsHarmless : String → Type 0
  IsHarmless s =
      (s ≡ redacted) ⊎ ((name : String) × (s ≡ marker name)) ⊎ (is_secret matches s ≡ false)

  -- A field whose name is not sensitive, or whose value is the literal.
  abbrev pub IsHidden : String → Json → Type 0
  IsHidden k v = (is_sensitive k ≡ false) ⊎ (v ≡ str redacted)

  unfoldable mutual
    pub IsClean : Json → Type 0
    IsClean (str s) = IsHarmless s
    IsClean (arr xs) = AreClean xs
    IsClean (obj fs) = HasCleanFields fs
    IsClean nan = ⊥
    IsClean (infinity b) = ⊥
    IsClean _ = Unit

    pub AreClean : Items → Type 0
    AreClean nil = Unit
    AreClean (cons x xs) = IsClean x × AreClean xs

    pub HasCleanFields : Fields → Type 0
    HasCleanFields end = Unit
    HasCleanFields (field k v fs) = IsHidden k v × IsClean v × HasCleanFields fs

-- Every result satisfies a predicate; an error does.
abbrev pub Yields {ℓ} : {A : Type ℓ} → (A → Type 0) → Walked A → Type 0
Yields P (walked a xs) = P a
Yields P (failed e) = Unit

Yields-combine {ℓ} :
    {A B C : Type ℓ} (P : A → Type 0) (Q : B → Type 0) (R : C → Type 0) (f : A → B → C)
    (m : Walked A) (n : Walked B)
    → Yields P m
    → Yields Q n
    → ((a : A) (b : B) → P a → Q b → R (f a b))
    → Yields R (combine f m n)
unfolding combine
Yields-combine P Q R f (failed e) n h k step = tt
Yields-combine P Q R f (walked a xs) (failed e) h k step = tt
Yields-combine P Q R f (walked a xs) (walked b ys) h k step = step a b h k

module _ (python_str : Store → Value → String) (is_sensitive : String → Bool)
    (matches : String → Bool) where
  -- What is proved of a JSON value, with a bound on its depth; of items; and of fields.
  abbrev pub IsSafe : ℕ → Json → Type 0
  IsSafe n j = IsClean is_sensitive matches j × (is_finite j ≡ true) × (depth j ≤ n)

  abbrev pub AreSafe : ℕ → Items → Type 0
  AreSafe n js = AreClean is_sensitive matches js × (finite_items js ≡ true) × (items_depth js ≤ n)

  abbrev pub HasSafeFields : ℕ → Fields → Type 0
  HasSafeFields n fs =
      HasCleanFields is_sensitive matches fs × (finite_fields fs ≡ true) × (fields_depth fs ≤ n)

  pub redact-IsSafe : (n : ℕ) → IsSafe n (str redacted)
  unfolding IsClean is_finite depth
  redact-IsSafe n = (inl refl, refl, omega arith)

  walk_field-IsSafe :
      (n : ℕ) (store : Store) (descend : Value → Walked Json) (k : String) (v : Value)
      → ((w : Value) → Yields (IsSafe n) (descend w))
      → Yields
          (λ j. IsHidden is_sensitive matches k j × IsSafe n j)
          (if is_sensitive k then redact python_str is_sensitive matches store v else descend v)
  walk_field-IsSafe n store descend k v h = elim (Bool-cases (is_sensitive k)) [
    | inl y ↦ rw y (inr refl, redact-IsSafe n)
    | inr m ↦ rw m (weaken (descend v) (h v))
  ]
    where
      weaken :
          (m : Walked Json)
          → Yields (IsSafe n) m
          → Yields (λ j. ((false ≡ false) ⊎ (j ≡ str redacted)) × IsSafe n j) m
      weaken (walked j xs) h = (inl refl, h)
      weaken (failed e) h = tt

  pub walk_fields-AreSafe :
      (n : ℕ) (store : Store) (descend : Value → Walked Json) (items : List (String × Value))
      → ((w : Value) → Yields (IsSafe n) (descend w))
      → Yields (HasSafeFields n) (walk_fields python_str is_sensitive matches store descend items)
  unfolding walk_fields HasCleanFields finite_fields fields_depth
  walk_fields-AreSafe n store descend [] h = (tt, refl, omega arith)
  walk_fields-AreSafe n store descend ((k, v) ∷ items) h =
      Yields-combine (λ j. IsHidden is_sensitive matches k j × IsSafe n j) (HasSafeFields n)
        (HasSafeFields n) (λ j fs. field k j fs) _ _ (walk_field-IsSafe n store descend k v h)
        (walk_fields-AreSafe n store descend items h)
        (λ j fs hj hf. ((hj.0, hj.1.0, hf.0), rw (hj.1.1) (hf.1), omega (arith, hj.1.2, hf.2)))

  pub walk_items-AreSafe :
      (n : ℕ) (descend : Value → Walked Json) (vs : List Value)
      → ((w : Value) → Yields (IsSafe n) (descend w))
      → Yields (AreSafe n) (walk_items python_str is_sensitive matches descend vs)
  unfolding walk_items AreClean finite_items items_depth
  walk_items-AreSafe n descend [] h = (tt, refl, omega arith)
  walk_items-AreSafe n descend (v ∷ vs) h =
      Yields-combine (IsSafe n) (AreSafe n) (AreSafe n) (λ j js. cons j js) _ _ (h v)
        (walk_items-AreSafe n descend vs h)
        (λ j js hj hs. ((hj.0, hs.0), rw (hj.1) (hs.1), omega (arith, hj.2, hs.2)))
