-- ===== src/Canonical/Agree.antt =====
-- What a caller sees of a traversal, and when two values, or two stores, may differ only in what
-- is redacted.
use tesera.Common.{
  ◌≡◌, refl, ◌⊎◌, Bool, true, false, List, [], ◌∷◌, String, some, none, Option, sym, ◌∙◌,
}
use tesera.Canonical.{
  Value, Key, Object, Walked, walked, failed, CanonicalizationError, is_secret, map_walked, py_str,
  dict, named, sequence, opaque, string_keys, combine,
}

-- What a caller sees of a traversal: its value or its error, without the texts it collected.
pub data Seen {ℓ} (A : Type ℓ) : Type ℓ where
  seen_value : A → Seen A
  seen_error : CanonicalizationError → Seen A

unfoldable pub evidence {ℓ} : {A : Type ℓ} → Walked A → Seen A
evidence (walked a xs) = seen_value a
evidence (failed e) = seen_error e

unfoldable combine_seen {ℓ} : {A B C : Type ℓ} → (A → B → C) → Seen A → Seen B → Seen C
combine_seen f (seen_error e) m = seen_error e
combine_seen f (seen_value a) (seen_error e) = seen_error e
combine_seen f (seen_value a) (seen_value b) = seen_value (f a b)

evidence-combine {ℓ} :
    {A B C : Type ℓ} (f : A → B → C) (m : Walked A) (n : Walked B)
    → evidence (combine f m n) ≡ combine_seen f (evidence m) (evidence n)
unfolding combine evidence combine_seen
evidence-combine f (failed e) n = refl
evidence-combine f (walked a xs) (failed e) = refl
evidence-combine f (walked a xs) (walked b ys) = refl

abbrev map_seen {ℓ} : {A B : Type ℓ} → (A → B) → Seen A → Seen B
map_seen f (seen_value a) = seen_value (f a)
map_seen f (seen_error e) = seen_error e

pub evidence-map {ℓ} :
    {A B : Type ℓ} (f : A → B) (m : Walked A) → evidence (map_walked f m) ≡ map_seen f (evidence m)
unfolding evidence
evidence-map f (walked a xs) = refl
evidence-map f (failed e) = refl

pub map-agrees {ℓ} :
    {A B : Type ℓ} (f : A → B) (m n : Walked A)
    → evidence m ≡ evidence n
    → evidence (map_walked f m) ≡ evidence (map_walked f n)
map-agrees f m n h = evidence-map f m ∙ rw h (sym (evidence-map f n))

pub combine-agrees {ℓ} :
    {A B C : Type ℓ} (f : A → B → C) (m m' : Walked A) (n n' : Walked B)
    → evidence m ≡ evidence m'
    → evidence n ≡ evidence n'
    → evidence (combine f m n) ≡ evidence (combine f m' n')
combine-agrees f m m' n n' h k =
    evidence-combine f m n ∙ rw h (rw k (sym (evidence-combine f m' n')))

module _ (is_sensitive : String → Bool) (matches : String → Bool) where
  -- A value that is redacted for the text that it is.
  abbrev pub is_secret_value : Value → Bool
  is_secret_value (py_str s) = is_secret matches s
  is_secret_value _ = false

  -- The same value, or two secret texts.
  abbrev pub ValuesAgree : Value → Value → Type 0
  ValuesAgree v w = (v ≡ w) ⊎ ((is_secret_value v ≡ true) × (is_secret_value w ≡ true))

  -- The same names; under a name that is not sensitive the values agree.
  abbrev pub FieldsAgree : List (String × Value) → List (String × Value) → Type 0
  FieldsAgree [] [] = Unit
  FieldsAgree [] (_ ∷ _) = ⊥
  FieldsAgree (_ ∷ _) [] = ⊥
  FieldsAgree ((k, v) ∷ xs) ((j, w) ∷ ys) =
      (k ≡ j) × ((is_sensitive k ≡ true) ⊎ ValuesAgree v w) × FieldsAgree xs ys

  abbrev pub ItemsAgree : List Value → List Value → Type 0
  ItemsAgree [] [] = Unit
  ItemsAgree [] (_ ∷ _) = ⊥
  ItemsAgree (_ ∷ _) [] = ⊥
  ItemsAgree (v ∷ vs) (w ∷ ws) = ValuesAgree v w × ItemsAgree vs ws

  abbrev pub KeysAgree : Option (List (String × Value)) → Option (List (String × Value)) → Type 0
  KeysAgree none none = Unit
  KeysAgree none (some _) = ⊥
  KeysAgree (some _) none = ⊥
  KeysAgree (some xs) (some ys) = FieldsAgree xs ys

  -- Of two opaque objects only the type is the same, and of two dicts with a key that is no text
  -- nothing.
  pub data ObjectsAgree : Object → Object → Type 0 where
    dicts :
        {xs ys : List (Key × Value)}
        → KeysAgree (string_keys xs) (string_keys ys)
        → ObjectsAgree (dict xs) (dict ys)
    fields :
        {xs ys : List (String × Value)} → FieldsAgree xs ys → ObjectsAgree (named xs) (named ys)
    sequences : {vs ws : List Value} → ItemsAgree vs ws → ObjectsAgree (sequence vs) (sequence ws)
    opaques : {name : String} → ObjectsAgree (opaque name) (opaque name)
