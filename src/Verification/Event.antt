-- ===== src/Verification/Event.antt =====
-- `_verify_event` of src/tesera/verification.py.
use tesera.Common.{
  Bool, true, false, Option, none, some, List, [], ◌∷◌, ◌++◌, String, not, if◌then◌else◌,
}
use tesera.Common.Dict.{Dict}
use tesera.Json.{Json, Fields, Event, null, get, as_str, is_str}
use tesera.Json.Payload.{finite_fields, unsigned_payload}
use tesera.Verification.{
  IssueCode, Checked, value, raises, canonicalization_error, ◌>>=◌, in_set, issue_if, Crypto,
  unknown_schema, unknown_event_type, missing_fields, chain_break, hash_mismatch, unknown_key,
  bad_signature,
}
use tesera.Verification.Shape.{
  lacks_fields, checkpoint_issues, resolution_issues, countersignature_issues, outcome_issues,
  archive_issues, rotation_issues,
}

abbrev pub known_schema_versions : List String
known_schema_versions = "1" ∷ []

abbrev pub known_event_types : List String
known_event_types =
    "decision" ∷ "outcome" ∷ "checkpoint" ∷ "resolution" ∷ "countersignature" ∷ "archive"
    ∷ "rotation" ∷ []

-- `event["previous_event_hash"] == expected`, where None is null.
unfoldable pub is_previous : Option String → Json → Bool
is_previous none null = true
is_previous none _ = false
is_previous (some h) v = is_str h v

-- The checks that depend on the event type; the types exclude one another.
unfoldable pub shape_issues : Dict Event → Event → Checked (List IssueCode)
shape_issues checkpoints event =
    let event_type = get "event_type" event in
    if is_str "checkpoint" event_type
    then value (checkpoint_issues event)
    else if is_str "resolution" event_type
    then resolution_issues event
    else if is_str "countersignature" event_type
    then value (countersignature_issues checkpoints event)
    else if is_str "outcome" event_type
    then value (outcome_issues event)
    else if is_str "archive" event_type
    then value (archive_issues event)
    else if is_str "rotation" event_type
    then value (rotation_issues event)
    else value []

module _ (c : Crypto) where
  -- `event_digest(unsigned_payload(event))`: NaN and infinity are not canonical JSON.
  unfoldable pub event_digest : Fields → Checked String
  event_digest payload =
      if finite_fields payload then value (c.digest payload) else raises canonicalization_error

  -- The signature under a key, if it is a text: the `str` of any other JSON value is not the
  -- base64 text of 64 bytes.
  abbrev pub is_signed_by : String → Option String → c.PublicKey → Bool
  is_signed_by digest none key = false
  is_signed_by digest (some signature) key = c.verify key digest signature

module _ (c : Crypto) (trusted : String → Option c.PublicKey) where
  -- `trusted.get(key_id) if isinstance(key_id, str) else None`
  abbrev pub signer_of : Option String → Option c.PublicKey
  signer_of none = none
  signer_of (some key_id) = trusted key_id

  unfoldable pub signature_issues : String → Event → List IssueCode
  signature_issues digest event = elim (signer_of (as_str (get "key_id" event))) [
    | none ↦ unknown_key ∷ []
    | some key ↦
        issue_if (not (is_signed_by c digest (as_str (get "signature" event)) key)) bad_signature
  ]

  -- The checks on the link, the hash and the signature.
  unfoldable pub seal_issues : Option String → Event → Checked (List IssueCode)
  unfolding event_digest signature_issues is_previous
  seal_issues expected event = do
    digest ← event_digest c (unsigned_payload event)
    value (
        issue_if (not (is_previous expected (get "previous_event_hash" event))) chain_break
        ++ (issue_if (not (is_str digest (get "event_hash" event))) hash_mismatch
            ++ signature_issues digest event))

  -- The checks after the schema version and the event type are known.
  unfoldable pub body_issues : Option String → Dict Event → Event → Checked (List IssueCode)
  unfolding shape_issues seal_issues
  body_issues expected checkpoints event =
      if lacks_fields event then value (missing_fields ∷ []) else do
        shape ← shape_issues checkpoints event
        seal ← seal_issues expected event
        value (shape ++ seal)

  unfoldable pub verify_event : Option String → Dict Event → Event → Checked (List IssueCode)
  unfolding body_issues
  verify_event expected checkpoints event = do
    known_schema ← in_set known_schema_versions (get "schema_version" event)
    let body = do
      known_type ← in_set known_event_types (get "event_type" event)
      if known_type then body_issues expected checkpoints event else value (unknown_event_type ∷ [])
    if known_schema then body else value (unknown_schema ∷ [])
