-- ===== src/Canonical/Private.antt =====
-- What evidence can tell about a secret: two stores that differ only in what sensitive names hold,
-- and in texts that a pattern matches, canonicalize alike.
use tesera.Common.{
  ℕ, zero, suc, ◌≡◌, refl, ◌⊎◌, inl, inr, Bool, true, false, Bool-cases, List, [], ◌∷◌, String,
  if◌then◌else◌, some, none, Option, sym, ◌∙◌, subst,
}
use tesera.Json.{Json, str}
use tesera.Canonical.{
  Value, Store, Object, Walked, failed, CanonicalizationError, cyclic, redacted, is_secret, walk,
  walk_value, walk_object, walk_fields, walk_items, walk_dict, redact, canonicalize, is_seen,
  py_none, py_bool, py_int, py_float, py_nan, py_infinity, py_str, object,
}
use tesera.Canonical.Agree.{
  seen_value, evidence, map-agrees, combine-agrees, is_secret_value, ValuesAgree, FieldsAgree,
  ItemsAgree, KeysAgree, ObjectsAgree,
}

module _ (python_str : Store → Value → String) (is_sensitive : String → Bool)
    (matches : String → Bool) where
  -- Two functions that show the same on values that agree.
  abbrev AgreeOn : (Value → Walked Json) → (Value → Walked Json) → Type 0
  AgreeOn d e =
      (v w : Value) → ValuesAgree is_sensitive matches v w → evidence (d v) ≡ evidence (e w)

  field-evidence :
      (s t : Store) (d e : Value → Walked Json) (k : String) (v w : Value)
      → AgreeOn d e
      → (is_sensitive k ≡ true) ⊎ ValuesAgree is_sensitive matches v w
      → evidence (if is_sensitive k then redact python_str is_sensitive matches s v else d v)
        ≡ evidence (if is_sensitive k then redact python_str is_sensitive matches t w else e w)
  unfolding evidence
  field-evidence s t d e k v w agree (inl y) = rw y refl
  field-evidence s t d e k v w agree (inr h) = elim (Bool-cases (is_sensitive k)) [
    | inl y ↦ rw y refl
    | inr m ↦ rw m (agree v w h)
  ]

  walk_fields-evidence :
      (s t : Store) (d e : Value → Walked Json) (xs ys : List (String × Value))
      → AgreeOn d e
      → FieldsAgree is_sensitive matches xs ys
      → evidence (walk_fields python_str is_sensitive matches s d xs)
        ≡ evidence (walk_fields python_str is_sensitive matches t e ys)
  unfolding walk_fields evidence
  walk_fields-evidence s t d e [] [] agree h = refl
  walk_fields-evidence s t d e [] (_ ∷ _) agree h = absurd h
  walk_fields-evidence s t d e (_ ∷ _) [] agree h = absurd h
  walk_fields-evidence s t d e ((k, v) ∷ xs) ((j, w) ∷ ys) agree (same, hv, hs) =
      let ih = walk_fields-evidence s t d e xs ys agree hs in
      subst
        (λ l.
          evidence (walk_fields python_str is_sensitive matches s d ((k, v) ∷ xs))
          ≡ evidence (walk_fields python_str is_sensitive matches t e ((l, w) ∷ ys)))
        same (combine-agrees _ _ _ _ _ (field-evidence s t d e k v w agree hv) ih)

  walk_items-evidence :
      (d e : Value → Walked Json) (vs ws : List Value)
      → AgreeOn d e
      → ItemsAgree is_sensitive matches vs ws
      → evidence (walk_items python_str is_sensitive matches d vs)
        ≡ evidence (walk_items python_str is_sensitive matches e ws)
  unfolding walk_items evidence
  walk_items-evidence d e [] [] agree h = refl
  walk_items-evidence d e [] (_ ∷ _) agree h = absurd h
  walk_items-evidence d e (_ ∷ _) [] agree h = absurd h
  walk_items-evidence d e (v ∷ vs) (w ∷ ws) agree (hv, hs) =
      combine-agrees _ _ _ _ _ (agree v w hv) (walk_items-evidence d e vs ws agree hs)

  walk_dict-evidence :
      (s t : Store) (d e : Value → Walked Json) (xs ys : Option (List (String × Value)))
      → AgreeOn d e
      → KeysAgree is_sensitive matches xs ys
      → evidence (walk_dict python_str is_sensitive matches s d xs)
        ≡ evidence (walk_dict python_str is_sensitive matches t e ys)
  walk_dict-evidence s t d e none none agree h = refl
  walk_dict-evidence s t d e none (some _) agree h = absurd h
  walk_dict-evidence s t d e (some _) none agree h = absurd h
  walk_dict-evidence s t d e (some xs) (some ys) agree h =
      map-agrees _ _ _ (walk_fields-evidence s t d e xs ys agree h)

  -- The same test on both sides.
  unless-evidence :
      (b : Bool) (e : CanonicalizationError) (m n : Walked Json)
      → evidence m ≡ evidence n
      → evidence (if b then failed e else m) ≡ evidence (if b then failed e else n)
  unless-evidence true e m n h = refl
  unless-evidence false e m n h = h

  -- Functions that agree whatever addresses were seen.
  abbrev AlwaysAgree : (List ℕ → Value → Walked Json) → (List ℕ → Value → Walked Json) → Type 0
  AlwaysAgree d e = (seen : List ℕ) → AgreeOn (d seen) (e seen)

  walk_object-evidence :
      (s t : Store) (d e : List ℕ → Value → Walked Json) (seen : List ℕ) (a : ℕ) (o q : Object)
      → AlwaysAgree d e
      → ObjectsAgree is_sensitive matches o q
      → evidence (walk_object python_str is_sensitive matches s d seen a o)
        ≡ evidence (walk_object python_str is_sensitive matches t e seen a q)
  unfolding walk_object
  walk_object-evidence s t d e seen a _ _ agree (ObjectsAgree.dicts h) =
      unless-evidence (is_seen a seen) cyclic _ _
        (walk_dict-evidence s t (d (a ∷ seen)) (e (a ∷ seen)) _ _ (agree (a ∷ seen)) h)
  walk_object-evidence s t d e seen a _ _ agree (ObjectsAgree.fields h) =
      unless-evidence (is_seen a seen) cyclic _ _ (
        map-agrees _ _ _
          (walk_fields-evidence s t (d (a ∷ seen)) (e (a ∷ seen)) _ _ (agree (a ∷ seen)) h))
  walk_object-evidence s t d e seen a _ _ agree (ObjectsAgree.sequences h) =
      unless-evidence (is_seen a seen) cyclic _ _ (
        map-agrees _ _ _
          (walk_items-evidence (d (a ∷ seen)) (e (a ∷ seen)) _ _ (agree (a ∷ seen)) h))
  walk_object-evidence s t d e seen a _ _ agree ObjectsAgree.opaques = refl

  -- A secret text shows the literal.
  walk_value-secret :
      (s : Store) (d : List ℕ → Value → Walked Json) (seen : List ℕ) (v : Value)
      → is_secret_value is_sensitive matches v ≡ true
      → evidence (walk_value python_str is_sensitive matches s d seen v) ≡ seen_value (str redacted)
  unfolding walk_value evidence
  walk_value-secret s d seen (py_str x) h = rw h refl
  walk_value-secret s d seen py_none h = absurd (cc h)
  walk_value-secret s d seen (py_bool b) h = absurd (cc h)
  walk_value-secret s d seen (py_int n) h = absurd (cc h)
  walk_value-secret s d seen (py_float n k) h = absurd (cc h)
  walk_value-secret s d seen py_nan h = absurd (cc h)
  walk_value-secret s d seen (py_infinity b) h = absurd (cc h)
  walk_value-secret s d seen (object a) h = absurd (cc h)

  walk_value-same :
      (s t : Store) (d e : List ℕ → Value → Walked Json) (seen : List ℕ) (v : Value)
      → AlwaysAgree d e
      → ((a : ℕ) → ObjectsAgree is_sensitive matches (s a) (t a))
      → evidence (walk_value python_str is_sensitive matches s d seen v)
        ≡ evidence (walk_value python_str is_sensitive matches t e seen v)
  unfolding walk_value evidence
  walk_value-same s t d e seen (py_str x) agree same = elim (Bool-cases (is_secret matches x)) [
    | inl y ↦ rw y refl
    | inr m ↦ rw m refl
  ]
  walk_value-same s t d e seen (object a) agree same =
      walk_object-evidence s t d e seen a (s a) (t a) agree (same a)
  walk_value-same s t d e seen py_none agree same = refl
  walk_value-same s t d e seen (py_bool b) agree same = refl
  walk_value-same s t d e seen (py_int n) agree same = refl
  walk_value-same s t d e seen (py_float n k) agree same = refl
  walk_value-same s t d e seen py_nan agree same = refl
  walk_value-same s t d e seen (py_infinity b) agree same = refl

  walk_value-evidence :
      (s t : Store) (d e : List ℕ → Value → Walked Json) (seen : List ℕ) (v w : Value)
      → AlwaysAgree d e
      → ((a : ℕ) → ObjectsAgree is_sensitive matches (s a) (t a))
      → ValuesAgree is_sensitive matches v w
      → evidence (walk_value python_str is_sensitive matches s d seen v)
        ≡ evidence (walk_value python_str is_sensitive matches t e seen w)
  walk_value-evidence s t d e seen v w agree same (inl eq) =
      subst
        (λ u.
          evidence (walk_value python_str is_sensitive matches s d seen v)
          ≡ evidence (walk_value python_str is_sensitive matches t e seen u))
        eq (walk_value-same s t d e seen v agree same)
  walk_value-evidence s t d e seen v w agree same (inr (x, y)) =
      walk_value-secret s d seen v x ∙ sym (walk_value-secret t e seen w y)

  walk-evidence :
      (s t : Store) (left : ℕ) (seen : List ℕ) (v w : Value)
      → ((a : ℕ) → ObjectsAgree is_sensitive matches (s a) (t a))
      → ValuesAgree is_sensitive matches v w
      → evidence (walk python_str is_sensitive matches s left seen v)
        ≡ evidence (walk python_str is_sensitive matches t left seen w)
  unfolding walk evidence
  walk-evidence s t zero seen v w same h = refl
  walk-evidence s t (suc left) seen v w same h =
      walk_value-evidence s t _ _ seen v w (λ sn x y hx. walk-evidence s t left sn x y same hx) same
        h

  -- Two stores whose objects expand alike and differ only in what sensitive names hold, in texts
  -- that a pattern matches, and inside opaque objects, give the same evidence: `canonicalize`
  -- returns the same value for both, or raises the same error. So no hash and no summary of the
  -- value depends on a secret.
  pub canonicalize_hides_secrets :
      (s t : Store) (v w : Value)
      → ((a : ℕ) → ObjectsAgree is_sensitive matches (s a) (t a))
      → ValuesAgree is_sensitive matches v w
      → evidence (canonicalize python_str is_sensitive matches s v)
        ≡ evidence (canonicalize python_str is_sensitive matches t w)
  unfolding canonicalize
  canonicalize_hides_secrets s t v w same h = walk-evidence s t 65 [] v w same h
