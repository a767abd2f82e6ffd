-- ===== src/Common/Dict.antt =====
-- A Python dict with string keys, in insertion order.
use tesera.Common.Tests.{if◌then◌else◌, Bool-cases, Option-cases}
use mathlib.Core.Logic.{inl, inr}
use text.Mathlib.TextPositions.{eq_refl}
use Prim.Native.String.{String}
use mathlib.Core.Path.{◌≡◌, refl, ap}
use mathlib.Core.Bool.{Bool, true, false}
use mathlib.Core.Option.{Option, none, some}
use mathlib.Core.List.{List, [], ◌∷◌, ◌++◌}
use native.Mathlib.Omega.{arith}
use text.Mathlib.Text.{◌==◌}
use text.Mathlib.TextEquality.{eq_iff}

abbrev pub Dict {ℓ} : Type ℓ → Type ℓ
Dict V = List (String × V)

module _ {ℓ} {V : Type ℓ} where
  -- `d.get(k)`
  unfoldable pub lookup : String → Dict V → Option V
  lookup k [] = none
  lookup k ((j, v) ∷ d) = if j == k then some v else lookup k d

  -- `d[k] = v`: a key that is there keeps its place.
  unfoldable pub insert : String → V → Dict V → Dict V
  insert k v [] = (k, v) ∷ []
  insert k v ((j, w) ∷ d) = if j == k then (j, v) ∷ d else (j, w) ∷ insert k v d

  -- `d.get(k, default)`
  unfoldable pub get_or : V → String → Dict V → V
  unfolding lookup
  get_or z k d = elim (lookup k d) [ none ↦ z | some v ↦ v ]

  -- `k in d`
  unfoldable pub contains : String → Dict V → Bool
  unfolding lookup
  contains k d = elim (lookup k d) [ none ↦ false | some _ ↦ true ]

  pub lookup-insert :
      (k j : String) (v : V) (d : Dict V)
      → lookup j (insert k v d) ≡ (if k == j then some v else lookup j d)
  unfolding lookup insert
  lookup-insert k j v [] = refl
  lookup-insert k j v ((i, w) ∷ d) =
      ground (arith, eq_iff k j, eq_iff i k, eq_iff i j, lookup-insert k j v d)

  pub get_or-insert :
      (z : V) (k j : String) (v : V) (d : Dict V)
      → get_or z j (insert k v d) ≡ (if k == j then v else get_or z j d)
  unfolding get_or
  get_or-insert z k j v d = ground (arith, lookup-insert k j v d)

  pub contains→lookup : (k : String) (d : Dict V) → contains k d ≡ false → lookup k d ≡ none
  unfolding contains
  contains→lookup k d h = ground arith

  -- A fresh key goes to the end.
  pub insert_fresh :
      (k : String) (v : V) (d : Dict V) → contains k d ≡ false → insert k v d ≡ d ++ (k, v) ∷ []
  unfolding insert contains
  insert_fresh k v [] h = refl
  insert_fresh k v ((j, w) ∷ d) h = elim (Bool-cases (j == k)) [
    | inl e ↦ absurd (cc (rw (e, contains) at h))
    | inr n ↦ rw n (ap (λ l. (j, w) ∷ l) (insert_fresh k v d (rw (n, contains) at h)))
  ]

  pub lookup-append :
      (k : String) (c d : Dict V) {v : V} → lookup k c ≡ some v → lookup k (c ++ d) ≡ some v
  unfolding lookup
  lookup-append k [] d e = absurd (cc e)
  lookup-append k ((j, w) ∷ c) d e = elim (Bool-cases (j == k)) [
    | inl y ↦ rw y (rw y at e)
    | inr n ↦ rw n (lookup-append k c d (rw n at e))
  ]

  pub lookup-append_fresh :
      (k : String) (v : V) (d : Dict V)
      → contains k d ≡ false
      → lookup k (d ++ (k, v) ∷ []) ≡ some v
  unfolding lookup contains
  lookup-append_fresh k v [] h = rw eq_refl
  lookup-append_fresh k v ((j, w) ∷ d) h = elim (Bool-cases (j == k)) [
    | inl e ↦ absurd (cc (rw (e, contains) at h))
    | inr n ↦ rw n (lookup-append_fresh k v d (rw (n, contains) at h))
  ]

  pub contains-insert :
      (k j : String) (v : V) (d : Dict V)
      → contains j (insert k v d) ≡ (if k == j then true else contains j d)
  unfolding contains
  contains-insert k j v d = ground (arith, lookup-insert k j v d)

module _ {ℓ κ} {V : Type ℓ} {W : Type κ} (f : V → W) where
  -- `{k: f(v) for k, v in d.items()}`
  unfoldable pub map_values : Dict V → Dict W
  map_values [] = []
  map_values ((k, v) ∷ d) = (k, f v) ∷ map_values d

  pub lookup-map_values :
      (k : String) (d : Dict V)
      → lookup k (map_values d) ≡ elim (lookup k d) [ none ↦ none | some v ↦ some (f v) ]
  unfolding lookup map_values
  lookup-map_values k [] = refl
  lookup-map_values k ((j, v) ∷ d) = elim (Bool-cases (j == k)) [
    | inl y ↦ rw y refl
    | inr n ↦ rw n (lookup-map_values k d)
  ]

  pub get_or-map_values :
      (z : V) (k : String) (d : Dict V) → get_or (f z) k (map_values d) ≡ f (get_or z k d)
  unfolding get_or
  get_or-map_values z k d = elim (Option-cases (lookup k d)) [
    | inl e ↦ rw (get_or, lookup-map_values k d, e) refl
    | inr (v, e) ↦ rw (get_or, lookup-map_values k d, e) refl
  ]

  pub contains-map_values : (k : String) (d : Dict V) → contains k (map_values d) ≡ contains k d
  unfolding contains
  contains-map_values k d = elim (Option-cases (lookup k d)) [
    | inl e ↦ rw (contains, lookup-map_values k d, e) refl
    | inr (v, e) ↦ rw (contains, lookup-map_values k d, e) refl
  ]

  pub insert-map_values :
      (k : String) (v : V) (d : Dict V) → insert k (f v) (map_values d) ≡ map_values (insert k v d)
  unfolding insert map_values
  insert-map_values k v [] = refl
  insert-map_values k v ((j, w) ∷ d) = elim (Bool-cases (j == k)) [
    | inl y ↦ rw y refl
    | inr n ↦ rw n (ap (λ l. (j, f w) ∷ l) (insert-map_values k v d))
  ]
