-- ===== src/Verification/Witness.antt =====
-- `_load_checkpoint_witness` of src/tesera/verification.py.
use tesera.Common.{
  Bool, false, Option, none, some, List, [], ◌∷◌, String, not, all_of, if◌then◌else◌,
}
use tesera.Json.{Event, get, has, as_str, is_str}
use tesera.Json.Equality.{json_eq}
use tesera.Json.Payload.{unsigned_payload}
use tesera.Verification.{
  IssueCode, Checked, value, ◌>>=◌, in_set, Crypto, checkpoint_witness_unreadable,
  checkpoint_witness_invalid,
}
use tesera.Verification.Shape.{is_bad_count, checkpoint_required_fields}
use tesera.Verification.Event.{known_schema_versions, event_digest, is_signed_by, signer_of}

-- What a line of a journal, or a witness file, holds once it is stripped: nothing, no JSON, JSON
-- that is no object, or an object. `io_error` is an OSError of the read.
pub data Line : Type 0 where
  blank bad_json not_object io_error : Line
  object : Event → Line

abbrev pub Loaded : Type 0
Loaded = Option Event × List IssueCode

abbrev pub invalid : Loaded
invalid = (none, checkpoint_witness_invalid ∷ [])

-- The tests that need no cryptography, after the schema version is known.
unfoldable pub is_well_shaped : Event → Bool
is_well_shaped event =
    if not (is_str "checkpoint" (get "event_type" event))
    then false
    else if not (all_of (λ name. has name event) checkpoint_required_fields)
    then false
    else if not (json_eq (get "head_sha256" event) (get "previous_event_hash" event))
    then false
    else not (is_bad_count 0 (get "checkpoint_count" event))

module _ (c : Crypto) (trusted : String → Option c.PublicKey) where
  -- The tests of the hash, the key and the signature.
  unfoldable pub check_seal : Event → Checked Loaded
  unfolding event_digest
  check_seal event = do
    digest ← event_digest c (unsigned_payload event)
    value (
        if not (is_str digest (get "event_hash" event))
        then invalid
        else elim (signer_of c trusted (as_str (get "key_id" event))) [
          | none ↦ invalid
          | some key ↦
              if is_signed_by c digest (as_str (get "signature" event)) key
              then (some event, [])
              else invalid
        ])

  unfoldable pub check_witness : Event → Checked Loaded
  unfolding is_well_shaped check_seal
  check_witness event = do
    known ← in_set known_schema_versions (get "schema_version" event)
    let seal = check_seal event
    if known then (if is_well_shaped event then seal else value invalid) else value invalid

  unfoldable pub load_checkpoint_witness : Line → Checked Loaded
  unfolding check_witness
  load_checkpoint_witness io_error = value (none, checkpoint_witness_unreadable ∷ [])
  load_checkpoint_witness (object event) = check_witness event
  load_checkpoint_witness blank = value invalid
  load_checkpoint_witness bad_json = value invalid
  load_checkpoint_witness not_object = value invalid
