-- ===== src/Verification/Shape.antt =====
-- The checks that `_verify_event` of src/tesera/verification.py makes for one event type each.
use Prim.Native.Char.{code}
use tesera.Common.{
  ℕ, suc, zero, Bool, true, false, Option, none, some, List, [], ◌∷◌, ◌++◌, String, ◌&&◌, ◌||◌, not,
  any_of, all_of, length, leb, ltb, str_eq, ◌==◌, if◌then◌else◌,
}
use tesera.Common.Int.{pos, negsuc}
use tesera.Common.Dict.{Dict, lookup}
use tesera.Json.{Json, Event, null, get, has, as_str, as_int, as_obj, is_str}
use tesera.Json.Equality.{json_eq}
use tesera.Verification.{
  IssueCode, Checked, value, ◌>>=◌, in_set, issue_if, checkpoint_head_mismatch,
  checkpoint_bad_count, resolution_bad_value, resolution_bad_reference, resolution_bad_note,
  countersignature_orphan, countersignature_count_mismatch, countersignature_head_mismatch,
  countersignature_bad_count, outcome_bad_receipt, archive_not_first, archive_bad_count,
  archive_bad_path, rotation_signer_mismatch, rotation_bad_successor, rotation_bad_fingerprint,
  rotation_fingerprint_mismatch, rotation_self_successor,
}

-- The code points of a text.
abbrev pub codes : String → List ℕ
codes String.[] = []
codes (String.◌∷◌ c s) = code c ∷ codes s

abbrev pub codes_eq : List ℕ → List ℕ → Bool
codes_eq [] [] = true
codes_eq [] (_ ∷ _) = false
codes_eq (_ ∷ _) [] = false
codes_eq (x ∷ xs) (y ∷ ys) = x == y && codes_eq xs ys

abbrev pub take : ℕ → List ℕ → List ℕ
take zero xs = []
take (suc n) [] = []
take (suc n) (x ∷ xs) = x ∷ take n xs

-- `s.startswith(prefix)`
abbrev pub starts_with : List ℕ → List ℕ → Bool
starts_with prefix s = codes_eq prefix (take (length prefix) s)

abbrev pub has_code : ℕ → List ℕ → Bool
has_code c s = any_of (λ d. d == c) s

-- `not isinstance(count, int) or count < bound`, for a bound of 0 or 1.
abbrev pub is_bad_count : ℕ → Json → Bool
is_bad_count bound v = elim (as_int v) [
  | none ↦ true
  | some (pos n) ↦ ltb n bound
  | some (negsuc n) ↦ true
]

abbrev pub is_text : Json → Bool
is_text v = elim (as_str v) [ none ↦ false | some _ ↦ true ]

-- The required fields of each event type.
abbrev pub shared_required_fields : List String
shared_required_fields =
    "schema_version" ∷ "event_type" ∷ "event_id" ∷ "action_id" ∷ "action_name" ∷ "contract_hash"
    ∷ "timestamp_utc" ∷ "key_id" ∷ "event_hash" ∷ "signature" ∷ []

abbrev pub decision_required_fields : List String
decision_required_fields =
    "decision" ∷ "risk" ∷ "approval_mode" ∷ "redacted_input_summary" ∷ "input_hash" ∷ []

abbrev pub outcome_required_fields : List String
outcome_required_fields = "status" ∷ "decision_event_id" ∷ []

abbrev chained_fields : List String
chained_fields =
    "schema_version" ∷ "event_type" ∷ "event_id" ∷ "timestamp_utc" ∷ "key_id"
    ∷ "previous_event_hash" ∷ "event_hash" ∷ "signature" ∷ []

abbrev pub checkpoint_required_fields : List String
checkpoint_required_fields = chained_fields ++ "checkpoint_count" ∷ "head_sha256" ∷ []

abbrev pub resolution_required_fields : List String
resolution_required_fields =
    shared_required_fields ++ "decision_event_id" ∷ "resolution" ∷ "note" ∷ []

abbrev pub countersignature_required_fields : List String
countersignature_required_fields =
    chained_fields ++ "checkpoint_event_id" ∷ "checkpoint_count" ∷ "head_sha256" ∷ []

abbrev pub archive_required_fields : List String
archive_required_fields = chained_fields ++ "prior_count" ∷ "prior_head" ∷ "archived_path" ∷ []

abbrev pub rotation_required_fields : List String
rotation_required_fields =
    chained_fields ++ "prior_key_id" ∷ "successor_key_id" ∷ "successor_fingerprint" ∷ []

-- The list `required` of an event whose type is one of the known ones.
unfoldable pub required_fields : Json → List String
required_fields event_type =
    if is_str "checkpoint" event_type
    then checkpoint_required_fields
    else if is_str "resolution" event_type
    then resolution_required_fields
    else if is_str "countersignature" event_type
    then countersignature_required_fields
    else if is_str "archive" event_type
    then archive_required_fields
    else if is_str "rotation" event_type
    then rotation_required_fields
    else shared_required_fields
      ++ (if is_str "decision" event_type
          then decision_required_fields
          else outcome_required_fields)

-- Whether the list `missing` is not empty.
unfoldable pub lacks_fields : Event → Bool
unfolding required_fields
lacks_fields event =
    not (all_of (λ name. has name event) (required_fields (get "event_type" event)))
    || not (has "previous_event_hash" event)

unfoldable pub checkpoint_issues : Event → List IssueCode
checkpoint_issues event =
    issue_if (not (json_eq (get "head_sha256" event) (get "previous_event_hash" event)))
      checkpoint_head_mismatch
    ++ issue_if (is_bad_count 0 (get "checkpoint_count" event)) checkpoint_bad_count

abbrev pub known_resolutions : List String
known_resolutions = "confirmed_completed" ∷ "confirmed_not_completed" ∷ []

unfoldable pub resolution_issues : Event → Checked (List IssueCode)
resolution_issues event = do
  known ← in_set known_resolutions (get "resolution" event)
  value (
      issue_if (not known) resolution_bad_value
      ++ (issue_if (not (is_text (get "decision_event_id" event))) resolution_bad_reference
          ++ issue_if (not (is_text (get "note" event))) resolution_bad_note))

-- `checkpoints_by_id.get(ref) if isinstance(ref, str) else None`
abbrev pub referenced : Dict Event → Option String → Option Event
referenced checkpoints none = none
referenced checkpoints (some ref) = lookup ref checkpoints

abbrev pub countersignature_match : Event → Option Event → List IssueCode
countersignature_match event none = countersignature_orphan ∷ []
countersignature_match event (some checkpoint) =
    issue_if (not (json_eq (get "checkpoint_count" event) (get "checkpoint_count" checkpoint)))
      countersignature_count_mismatch
    ++ issue_if (not (json_eq (get "head_sha256" event) (get "head_sha256" checkpoint)))
        countersignature_head_mismatch

unfoldable pub countersignature_issues : Dict Event → Event → List IssueCode
countersignature_issues checkpoints event =
    countersignature_match event (referenced checkpoints (as_str (get "checkpoint_event_id" event)))
    ++ issue_if (is_bad_count 0 (get "checkpoint_count" event)) countersignature_bad_count

unfoldable pub outcome_issues : Event → List IssueCode
outcome_issues event =
    issue_if
      (has "receipt" event
        && (elim (as_obj (get "receipt" event)) [ none ↦ true | some _ ↦ false ]))
      outcome_bad_receipt

-- Whether a file name is not bare.
abbrev pub is_bad_path : Option String → Bool
is_bad_path none = true
is_bad_path (some path) =
    has_code b'/' (codes path)
    || (has_code 0x5c (codes path) || (str_eq path "." || str_eq path ".."))

abbrev is_null : Json → Bool
is_null null = true
is_null _ = false

unfoldable pub archive_issues : Event → List IssueCode
archive_issues event =
    issue_if (not (is_null (get "previous_event_hash" event))) archive_not_first
    ++ (issue_if (is_bad_count 1 (get "prior_count" event)) archive_bad_count
        ++ issue_if (is_bad_path (as_str (get "archived_path" event))) archive_bad_path)

abbrev is_hex_digit : ℕ → Bool
is_hex_digit c = (leb b'0' c && leb c b'9') || (leb b'a' c && leb c b'f')

-- A fingerprint is 64 lower-case hex digits.
abbrev pub is_fingerprint : String → Bool
is_fingerprint s = length (codes s) == 64 && all_of is_hex_digit (codes s)

abbrev pub is_bad_successor : Option String → Bool
is_bad_successor none = true
is_bad_successor (some s) = not (starts_with (codes "ed25519:") (codes s))

-- The checks on the fingerprint, and on the successor's id against it.
abbrev pub fingerprint_issues : Option String → Option String → List IssueCode
fingerprint_issues none successor = rotation_bad_fingerprint ∷ []
fingerprint_issues (some fingerprint) successor =
    if not (is_fingerprint fingerprint) then rotation_bad_fingerprint ∷ [] else elim successor [
      | none ↦ []
      | some s ↦
          issue_if (not (codes_eq (codes s) (codes "ed25519:" ++ take 16 (codes fingerprint))))
            rotation_fingerprint_mismatch
    ]

unfoldable pub rotation_issues : Event → List IssueCode
rotation_issues event =
    let prior = get "prior_key_id" event in
    let successor = get "successor_key_id" event in
    issue_if (not (json_eq prior (get "key_id" event))) rotation_signer_mismatch
    ++ (issue_if (is_bad_successor (as_str successor)) rotation_bad_successor
        ++ (fingerprint_issues (as_str (get "successor_fingerprint" event)) (as_str successor)
            ++ issue_if (is_text prior && json_eq prior successor) rotation_self_successor))
