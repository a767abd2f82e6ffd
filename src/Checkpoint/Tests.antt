-- ===== src/Checkpoint/Tests.antt =====
-- A checkpoint of a journal with one event.
use tesera.Json.Payload.{unsigned_payload, finite_fields}
use tesera.Verification.Shape.{lacks_fields}
use tesera.Verification.Event.{verify_event}
use tesera.Common.{◌≡◌, refl, true, none, some, [], ◌∷◌, eq_refl}
use tesera.Common.Int.{pos}
use tesera.Json.{has, Event, null, str, int, field, end, get}
use tesera.Verification.{in_set, value}
use tesera.Verification.Toy.{toy, py, trusted}
use tesera.Verification.Witness.{object}
use tesera.Verification.Journal.{read_event, VerificationResult, read_and_verify}
use tesera.Engine.{Stamp}
use tesera.Checkpoint.{checkpoint_journal}
use tesera.Checkpoint.Replay.{lines_of}
use tesera.Checkpoint.Verifies.{checkpoint_verifies}

abbrev stamp : Stamp
stamp = record { key_id = "k1"; sign = λ d. d; event_id = "e2"; timestamp_utc = "later" }

abbrev denial : Event
denial = field "schema_version" (str "1") (
    field "event_type" (str "decision") (
      field "event_id" (str "e1") (
        field "action_id" (str "a") (
          field "action_name" (str "refund") (
            field "contract_hash" (str "c") (
              field "timestamp_utc" (str "now") (
                field "key_id" (str "k1") (
                  field "previous_event_hash" null (
                    field "decision" (str "denied") (
                      field "risk" (str "high") (
                        field "approval_mode" (str "required") (
                          field "redacted_input_summary" (str "") (
                            field "input_hash" (str "i") (
                              field "event_hash" (str "e1")
                                (field "signature" (str "e1") end)))))))))))))))

abbrev checkpoint : Event
checkpoint = field "schema_version" (str "1") (
    field "event_type" (str "checkpoint") (
      field "event_id" (str "e2") (
        field "timestamp_utc" (str "later") (
          field "key_id" (str "k1") (
            field "previous_event_hash" (str "e1") (
              field "checkpoint_count" (int (pos 1)) (
                field "head_sha256" (str "e1")
                  (field "event_hash" (str "e2") (field "signature" (str "e2") end)))))))))

abbrev result : VerificationResult
result = record { valid = true; events_verified = 1; issues = [] }

run_before :
    read_and_verify toy trusted py none (some (lines_of (denial ∷ [])))
    ≡ value (result, denial ∷ [])
unfolding read_and_verify read_event verify_event in_set get lacks_fields has finite_fields
    unsigned_payload
run_before = refl

run_checkpoint :
    checkpoint_journal toy stamp (denial ∷ []) ≡ value (checkpoint, denial ∷ checkpoint ∷ [])
unfolding checkpoint_journal finite_fields get
run_checkpoint = refl

checkpoint_verifies_example :
    (event : Event) × (checkpoint_journal toy stamp (denial ∷ [])
      ≡ value (event, denial ∷ event ∷ []))
    × (read_and_verify toy trusted py (some (object event)) (some (lines_of (denial ∷ event ∷ [])))
        ≡ value (record { valid = true; events_verified = 2; issues = [] }, denial ∷ event ∷ []))
checkpoint_verifies_example =
    checkpoint_verifies toy trusted py stamp tt refl (λ d. eq_refl d) (denial ∷ []) result
      run_before refl
