-- ===== src/Canonical/Tests.antt =====
-- Runs of `canonicalize` on stores with secrets and with cycles, and its theorems at them.
use tesera.Common.{
  ℕ, ◌≡◌, ◌≤◌, refl, inl, inr, Bool, true, false, suc, zero, [], ◌∷◌, ◌++◌, String, map, str_eq,
  ◌||◌, if◌then◌else◌, ltb, ◌&&◌, ◌+◌,
}
use tesera.Common.Int.{pos}
use tesera.Json.{Json, str, int, obj, arr, field, end, nil, cons}
use tesera.Json.Payload.{is_finite}
use tesera.Verification.Shape.{codes}
use tesera.Canonical.{
  Store, Value, Object, key, other_key, dict, named, sequence, opaque, py_int, py_str, py_nan,
  object, walked, failed, not_finite, canonicalize,
}
use tesera.Canonical.Names.{Unicode, name, built_in, is_sensitive_name, build_sensitive_set}
use tesera.Canonical.Clean.{IsClean, depth}
use tesera.Canonical.Safe.{canonicalize-IsClean}
use tesera.Canonical.Agree.{ObjectsAgree, evidence}
use tesera.Canonical.Private.{canonicalize_hides_secrets}
use tesera.Canonical.Cyclic.{is_walked, expanded_values, IsOneOf, cycles_are_refused}
use tesera.Canonical.Declared.{declared-IsSensitive}

-- Unicode for ASCII: upper case letters fold to lower case.
abbrev lower : ℕ → ℕ
lower n = if ltb 64 n && ltb n 91 then n + 32 else n

abbrev ascii : Unicode
ascii = record {
  nfkc = λ s. s;
  nfd = λ s. s;
  is_combining = λ c. false;
  casefold = map lower;
  strip = λ s. s;
}

abbrev is_sensitive : String → Bool
is_sensitive s = str_eq s "api_key" || str_eq s "token"

abbrev has_pattern : String → Bool
has_pattern s = str_eq s "sk-live-12345678"

abbrev python_str : Store → Value → String
python_str store v = "1234"

-- A dataclass with a key, which also holds a list with a secret text and a foreign object.
abbrev store_of : String → Value → ℕ → Object
store_of secret pin zero =
    named (("api_key", py_str secret) ∷ ("data", object 1) ∷ ("token", pin) ∷ [])
store_of secret pin (suc zero) =
    sequence (py_str "sk-live-12345678" ∷ py_int (pos 7) ∷ object 2 ∷ [])
store_of secret pin (suc (suc _)) = opaque "http.client.HTTPConnection"

abbrev evidence_of : Json
evidence_of = obj (
    field "api_key" (str "<REDACTED>") (
      field "data"
        (arr (
          cons (str "<REDACTED>")
            (cons (int (pos 7)) (cons (str "<unsupported:http.client.HTTPConnection>") nil))))
        (field "token" (str "<REDACTED>") end)))

redacted_run :
    canonicalize python_str is_sensitive has_pattern
      (store_of "hunter22" (py_int (pos 1234)))
      (object 0)
    ≡ walked evidence_of ("hunter22" ∷ "sk-live-12345678" ∷ "1234" ∷ [])
unfolding canonicalize
redacted_run = refl

nan_run :
    canonicalize python_str is_sensitive has_pattern (store_of "" py_nan) py_nan ≡ failed not_finite
unfolding canonicalize
nan_run = refl

canonicalize-IsClean_example :
    IsClean is_sensitive has_pattern evidence_of
    × (is_finite evidence_of ≡ true)
    × (depth evidence_of ≤ 65)
canonicalize-IsClean_example =
    canonicalize-IsClean python_str is_sensitive has_pattern
      (store_of "hunter22" (py_int (pos 1234))) (object 0) evidence_of
      ("hunter22" ∷ "sk-live-12345678" ∷ "1234" ∷ []) redacted_run

stores_agree :
    (a : ℕ)
    → ObjectsAgree is_sensitive has_pattern
        (store_of "hunter22" (py_int (pos 1234)) a)
        (store_of "correct horse" (object 0) a)
stores_agree zero =
    ObjectsAgree.fields ((refl, inl refl, (refl, inr (inl refl), (refl, inl refl, tt))))
stores_agree (suc zero) = ObjectsAgree.sequences ((inl refl, (inl refl, (inl refl, tt))))
stores_agree (suc (suc n)) = ObjectsAgree.opaques

-- The second store holds another password, and a cycle in place of the pin.
canonicalize_hides_secrets_example :
    evidence (
      canonicalize python_str is_sensitive has_pattern
        (store_of "hunter22" (py_int (pos 1234)))
        (object 0))
    ≡ evidence (
        canonicalize python_str is_sensitive has_pattern
          (store_of "correct horse" (object 0))
          (object 0))
canonicalize_hides_secrets_example =
    canonicalize_hides_secrets python_str is_sensitive has_pattern
      (store_of "hunter22" (py_int (pos 1234))) (store_of "correct horse" (object 0)) (object 0)
      (object 0) stores_agree (inl refl)

-- Two dicts that hold each other.
abbrev ring : Store
ring zero = dict ((key "next", object 1) ∷ [])
ring (suc _) = dict ((key "next", object 0) ∷ (key "n", py_int (pos 1)) ∷ [])

abbrev InRing : ℕ → Type 0
InRing zero = Unit
InRing (suc zero) = Unit
InRing (suc (suc _)) = ⊥

ring_goes_on :
    (b : ℕ)
    → InRing b
    → (c : ℕ) × InRing c × IsOneOf (object c) (expanded_values is_sensitive (ring b))
unfolding expanded_values
ring_goes_on zero h = (1, tt, inl refl)
ring_goes_on (suc zero) h = (0, tt, inl refl)
ring_goes_on (suc (suc n)) h = absurd h

-- A dict that holds itself under a key that is no text ends in the marker.
abbrev odd : Store
odd n = dict ((other_key, object 0) ∷ [])

run_odd :
    canonicalize python_str is_sensitive has_pattern odd (object 0)
    ≡ walked (str "<unsupported:mapping-with-non-string-keys>") []
unfolding canonicalize
run_odd = refl

cycles_are_refused_example :
    is_walked (canonicalize python_str is_sensitive has_pattern ring (object 0)) ≡ false
cycles_are_refused_example =
    cycles_are_refused python_str is_sensitive has_pattern ring InRing 0 ring_goes_on tt

-- A small Cyrillic letter is taken for its ASCII lookalike, a capital one is not: the table holds
-- small letters only, and the case is folded after it.
small_lookalike : is_sensitive_name ascii "api_kеy" built_in ≡ true
unfolding is_sensitive_name
small_lookalike = refl

capital_lookalike : is_sensitive_name ascii "API_KЕY" built_in ≡ false
unfolding is_sensitive_name
capital_lookalike = refl

declared-IsSensitive_example : is_sensitive_name ascii "API" (built_in ++ codes "api" ∷ []) ≡ true
unfolding build_sensitive_set
declared-IsSensitive_example =
    declared-IsSensitive ascii "api" "API" (name "api" ∷ []) (built_in ++ codes "api" ∷ []) refl
      (inl refl) refl
