-- ===== src/Canonical/Declared.antt =====
-- The names that `build_sensitive_set` of src/tesera/redaction.py makes sensitive.
use tesera.Common.{
  ℕ, Bool, true, false, ◌≡◌, refl, ◌⊎◌, inl, inr, Option-cases, List, [], ◌∷◌, ◌++◌, String, subst,
  some, none, Option, ◌||◌, any_of, sym, arith, if◌then◌else◌,
}
use tesera.Verification.Shape.{codes_eq}
use tesera.Canonical.Names.{
  Unicode, Names, Declared, name, no_text, built_in, fold_name, is_sensitive_name, fold_all,
  build_sensitive_set,
}

-- The caller declared this name.
abbrev pub IsDeclared : String → List Declared → Type 0
IsDeclared s [] = ⊥
IsDeclared s (no_text ∷ ds) = IsDeclared s ds
IsDeclared s (name r ∷ ds) = (s ≡ r) ⊎ IsDeclared s ds

codes_eq_refl : (xs : List ℕ) → codes_eq xs xs ≡ true
codes_eq_refl [] = refl
codes_eq_refl (x ∷ xs) = ground (arith, codes_eq_refl xs)

any_of-append_right :
    (p : List ℕ → Bool) (xs ys : Names) → any_of p ys ≡ true → any_of p (xs ++ ys) ≡ true
any_of-append_right p [] ys h = h
any_of-append_right p (x ∷ xs) ys h = ground (arith, any_of-append_right p xs ys h)

some_inj : (a b : Names) → some a ≡ some b → a ≡ b
some_inj a b e = cc e

or_true : (b : Bool) → (b || true) ≡ true
or_true true = refl
or_true false = refl

-- What the loop adds, when it raises nothing.
add_folded :
    (b : Bool) (o : Option Names) (x : List ℕ) (ns : Names)
    → (if b then none else elim o [ none ↦ none | some ms ↦ some (x ∷ ms) ]) ≡ some ns
    → (ms : Names) × (o ≡ some ms) × (x ∷ ms ≡ ns)
add_folded true o x ns e = absurd (cc e)
add_folded false none x ns e = absurd (cc e)
add_folded false (some ms) x ns e = (ms, refl, some_inj _ _ e)

module _ (u : Unicode) where
  fold_all-has :
      (s : String) (ds : List Declared) (ns : Names)
      → fold_all u ds ≡ some ns
      → IsDeclared s ds
      → any_of (λ n. codes_eq n (fold_name u s)) ns ≡ true
  unfolding fold_all
  fold_all-has s [] ns e h = absurd h
  fold_all-has s (no_text ∷ ds) ns e h = absurd (cc e)
  fold_all-has s (name r ∷ ds) ns e h =
      let (ms, rest, eq) = add_folded _ (fold_all u ds) (fold_name u r) ns e in
      subst (λ n. any_of (λ m. codes_eq m (fold_name u s)) n ≡ true) eq
        (elim h [
          | inl same ↦ rw same (rw (codes_eq_refl (fold_name u r)) refl)
          | inr later ↦ rw (fold_all-has s ds ms rest later) (or_true _)
        ])

  -- When `build_sensitive_set` accepts the declared names, each of them is sensitive, and so is
  -- every name that folds to the same code points.
  pub declared-IsSensitive :
      (s t : String) (ds : List Declared) (ns : Names)
      → build_sensitive_set u ds ≡ some ns
      → IsDeclared s ds
      → fold_name u t ≡ fold_name u s
      → is_sensitive_name u t ns ≡ true
  unfolding build_sensitive_set is_sensitive_name
  declared-IsSensitive s t [] ns e h same = absurd h
  declared-IsSensitive s t (d ∷ ds) ns e h same = elim (Option-cases (fold_all u (d ∷ ds))) [
    | inl f ↦ absurd (cc (rw (f, build_sensitive_set) at e))
    | inr (ms, f) ↦
        subst (λ x. any_of (λ m. codes_eq m x) ns ≡ true) (sym same)
          (subst (λ n. any_of (λ m. codes_eq m (fold_name u s)) n ≡ true)
            (some_inj _ _ (rw (f, build_sensitive_set) at e))
            (any_of-append_right _ built_in ms (fold_all-has s (d ∷ ds) ms f h)))
  ]
