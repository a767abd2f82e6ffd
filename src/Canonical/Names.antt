-- ===== src/Canonical/Names.antt =====
-- Which names count as sensitive: `fold_name` and `is_sensitive_name` of src/tesera/canonical.py,
-- `build_sensitive_set` of src/tesera/redaction.py. The Unicode database of Python is a parameter,
-- on lists of code points.
use tesera.Common.{
  ℕ, Bool, true, false, not, Option, none, some, List, [], ◌∷◌, ◌++◌, String, ◌==◌, filter_if,
  any_of, map, if◌then◌else◌,
}
use tesera.Verification.Shape.{codes, codes_eq}

pub record Unicode : Type 0 where
  -- `unicodedata.normalize`
  pub nfkc : List ℕ → List ℕ
  pub nfd : List ℕ → List ℕ
  -- `unicodedata.combining`, as a truth value
  pub is_combining : ℕ → Bool
  pub casefold : List ℕ → List ℕ
  -- `str.strip`
  pub strip : List ℕ → List ℕ

-- `_CONFUSABLE_TO_ASCII`, as code points.
abbrev pub confusable_to_ascii : List (ℕ × ℕ)
confusable_to_ascii =
    (1072, 97)
    ∷ (1074, 98)
    ∷ (1077, 101)
    ∷ (1105, 101)
    ∷ (1110, 105)
    ∷ (1111, 105)
    ∷ (1112, 106)
    ∷ (1082, 107)
    ∷ (1084, 109)
    ∷ (1085, 104)
    ∷ (1086, 111)
    ∷ (1088, 112)
    ∷ (1089, 99)
    ∷ (1090, 116)
    ∷ (1091, 121)
    ∷ (1093, 120)
    ∷ (1094, 117)
    ∷ (1096, 119)
    ∷ (1097, 119)
    ∷ (1098, 98)
    ∷ (1100, 98)
    ∷ (1103, 114)
    ∷ (1109, 115)
    ∷ (945, 97)
    ∷ (946, 98)
    ∷ (947, 121)
    ∷ (949, 101)
    ∷ (953, 105)
    ∷ (954, 107)
    ∷ (956, 117)
    ∷ (957, 118)
    ∷ (959, 111)
    ∷ (961, 112)
    ∷ (962, 115)
    ∷ (963, 115)
    ∷ (964, 116)
    ∷ (965, 117)
    ∷ (967, 120)
    ∷ (969, 119)
    ∷ (1008, 107)
    ∷ (1009, 112)
    ∷ (1010, 99)
    ∷ (1013, 101)
    ∷ (181, 117)
    ∷ (186, 111)
    ∷ []

-- A code point through a translation table.
unfoldable pub translate_code : List (ℕ × ℕ) → ℕ → ℕ
translate_code [] c = c
translate_code ((a, b) ∷ table) c = if a == c then b else translate_code table c

-- `SENSITIVE_NAMES`
abbrev pub sensitive_names : List String
sensitive_names =
    "access_token" ∷ "api_key" ∷ "apikey" ∷ "auth_header" ∷ "authorization" ∷ "client_secret"
    ∷ "credential" ∷ "credentials" ∷ "passwd" ∷ "password" ∷ "private_key" ∷ "refresh_token"
    ∷ "secret" ∷ "secret_key" ∷ "session_token" ∷ "token" ∷ []

-- A set of folded names.
abbrev pub Names : Type 0
Names = List (List ℕ)

abbrev pub built_in : Names
built_in = map codes sensitive_names

-- A caller may declare values that are no texts.
pub data Declared : Type 0 where
  name : String → Declared
  no_text : Declared

abbrev pub is_nil : List ℕ → Bool
is_nil [] = true
is_nil (_ ∷ _) = false

module _ (u : Unicode) where
  -- `fold_name`
  unfoldable pub fold_name : String → List ℕ
  unfolding translate_code
  fold_name s = u.casefold (
      filter_if (λ c. not (u.is_combining c))
        (u.nfd (map (translate_code confusable_to_ascii) (u.nfkc (codes s)))))

  -- `is_sensitive_name`
  unfoldable pub is_sensitive_name : String → Names → Bool
  unfolding fold_name
  is_sensitive_name s sensitive = any_of (λ n. codes_eq n (fold_name s)) sensitive

  -- The loop over the names that a caller declares; none is the ContractError.
  unfoldable pub fold_all : List Declared → Option Names
  unfolding fold_name
  fold_all [] = some []
  fold_all (no_text ∷ rest) = none
  fold_all (name s ∷ rest) =
      let folded = fold_all rest in
      if is_nil (u.strip (fold_name s))
      then none
      else elim folded [ none ↦ none | some ns ↦ some (fold_name s ∷ ns) ]

  -- `build_sensitive_set`
  unfoldable pub build_sensitive_set : List Declared → Option Names
  unfolding fold_all
  build_sensitive_set [] = some built_in
  build_sensitive_set (d ∷ ds) = elim (fold_all (d ∷ ds)) [
    | none ↦ none
    | some ns ↦ some (built_in ++ ns)
  ]
