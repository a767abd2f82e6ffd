-- ===== src/Json/Payload.antt =====
-- The part of an event that its hash covers: `unsigned_payload` of src/tesera/journal.py, and the
-- floats that `canonical_json_bytes` of src/tesera/canonical.py refuses.
use tesera.Common.{
  Bool, true, false, none, some, String, ◌≡◌, refl, ap, sym, ◌∙◌, Bool-cases, inl, inr, ◌&&◌, ◌||◌,
  str_eq, eq_iff, arith, if◌then◌else◌,
}
use tesera.Json.{Json, Items, Fields, Event, nan, infinity, arr, obj, nil, cons, end, field, find}

-- `json.dumps` with `allow_nan=False` accepts the value.
unfoldable mutual
  pub is_finite : Json → Bool
  is_finite nan = false
  is_finite (infinity b) = false
  is_finite (arr xs) = finite_items xs
  is_finite (obj fs) = finite_fields fs
  is_finite _ = true

  pub finite_items : Items → Bool
  finite_items nil = true
  finite_items (cons x xs) = is_finite x && finite_items xs

  pub finite_fields : Fields → Bool
  finite_fields end = true
  finite_fields (field k v fs) = is_finite v && finite_fields fs

abbrev pub is_seal : String → Bool
is_seal k = str_eq k "event_hash" || str_eq k "signature"

-- The event without its hash and its signature.
unfoldable pub unsigned_payload : Event → Fields
unsigned_payload end = end
unsigned_payload (field k v fs) =
    if is_seal k then unsigned_payload fs else field k v (unsigned_payload fs)

-- Every other field is in the payload with its value.
pub find-unsigned_payload :
    (k : String) (event : Event)
    → find k (unsigned_payload event) ≡ (if is_seal k then none else find k event)
unfolding find unsigned_payload
find-unsigned_payload k end = ground arith
find-unsigned_payload k (field j v fs) =
    let ih = find-unsigned_payload k fs in
    elim (Bool-cases (str_eq j k)) [
      | inl y ↦
          let same = ap is_seal ((eq_iff j k).0 y) in
          elim (Bool-cases (is_seal j)) [
            | inl s ↦ rw (s, y) (rw (ih, sym same ∙ s) refl)
            | inr n ↦ rw (n, y) (rw (sym same ∙ n) refl)
          ]
      | inr m ↦ elim (Bool-cases (is_seal j)) [ inl s ↦ rw (s, m) ih | inr n ↦ rw (n, m) ih ]
    ]

-- `d[k] = v` on a dict.
unfoldable pub set : String → Json → Fields → Fields
set k v end = field k v end
set k v (field j w fs) = if str_eq j k then field j v fs else field j w (set k v fs)

pub find-set :
    (k j : String) (v : Json) (fs : Fields)
    → find j (set k v fs) ≡ (if str_eq k j then some v else find j fs)
unfolding find set
find-set k j v end = refl
find-set k j v (field i w fs) =
    ground (arith, eq_iff k j, eq_iff i k, eq_iff i j, find-set k j v fs)
