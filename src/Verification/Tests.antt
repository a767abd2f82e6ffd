-- ===== src/Verification/Tests.antt =====
-- Runs of the verifier, with a digest and a signature that compute.
use tesera.Json.Equality.{json_eq}
use tesera.Verification.Shape.{checkpoint_issues, lacks_fields}
use tesera.Verification.Event.{verify_event}
use tesera.Common.{
  ℕ, ◌≡◌, refl, true, false, none, some, List, [], ◌∷◌, String, map, length, str_eq, eq_iff,
}
use tesera.Json.{as_int, has, Event, null, str, get, as_str}
use tesera.Json.Payload.{finite_fields, unsigned_payload}
use tesera.Verification.{
  in_set, value, VerificationIssue, chain_break, checkpoint_truncation, checkpoint_not_found,
}
use tesera.Verification.Toy.{toy, py, trusted, decision, checkpoint}
use tesera.Verification.Witness.{Line, object, blank}
use tesera.Verification.Journal.{read_event, VerificationResult, read_and_verify}
use tesera.Verification.Valid.{HasChain, HasWitness, valid_chain, valid_covers_witness}
use tesera.Verification.Tamper.{NoCollision, same_head_same_history}

abbrev events : List Event
events = decision "e1" null ∷ decision "e2" (str "e1") ∷ checkpoint "e3" "e2" 2 ∷ []

abbrev lines : List Line
lines =
    object (decision "e1" null)
    ∷ object (decision "e2" (str "e1"))
    ∷ blank
    ∷ object (checkpoint "e3" "e2" 2)
    ∷ []

abbrev file : Line
file = object (checkpoint "e3" "e2" 2)

abbrev clean : ℕ → VerificationResult
clean n = record { valid = true; events_verified = n; issues = [] }

run_lines : read_and_verify toy trusted py none (some lines) ≡ value (clean 3, events)
unfolding read_and_verify read_event verify_event in_set get lacks_fields has finite_fields
    unsigned_payload checkpoint_issues json_eq as_int
run_lines = refl

run_with_witness : read_and_verify toy trusted py (some file) (some lines) ≡ value (clean 3, events)
unfolding read_and_verify in_set get has json_eq as_int finite_fields unsigned_payload read_event
    verify_event lacks_fields checkpoint_issues
run_with_witness = refl

abbrev failing : List VerificationIssue → VerificationResult
failing issues = record { valid = false; events_verified = 1; issues = issues }

-- A journal that is cut off before the checkpoint.
run_truncated :
    read_and_verify toy trusted py (some file) (some (object (decision "e1" null) ∷ []))
    ≡ value (
      failing (
          record { line_number = 0; code = checkpoint_not_found }
          ∷ record { line_number = 0; code = checkpoint_truncation }
          ∷ []),
      decision "e1" null ∷ [],
    )
unfolding read_and_verify in_set get has json_eq as_int finite_fields unsigned_payload read_event
    verify_event lacks_fields
run_truncated = refl

-- A journal whose second event is removed.
run_removed :
    read_and_verify toy trusted py none
      (some (object (decision "e1" null) ∷ object (decision "e3" (str "e2")) ∷ []))
    ≡ value (
      failing (record { line_number = 2; code = chain_break } ∷ []),
      decision "e1" null ∷ decision "e3" (str "e2") ∷ [],
    )
unfolding read_and_verify read_event verify_event in_set get lacks_fields has finite_fields
    unsigned_payload
run_removed = refl

valid_chain_example : HasChain toy trusted (some lines) events × (3 ≡ length events)
valid_chain_example = valid_chain toy trusted py none (some lines) (clean 3) events run_lines refl

valid_covers_witness_example : HasWitness toy trusted py file events
valid_covers_witness_example =
    valid_covers_witness toy trusted py file (some lines) (clean 3) events run_with_witness refl

apart : (s t : String) → str_eq s t ≡ false → s ≡ t → ⊥
apart s t h e = cc ((eq_iff s t).1 e, h)

no_collision : NoCollision toy events events
unfolding unsigned_payload get as_str
no_collision = (
  (λ e. refl, (λ e. absurd (apart "e1" "e2" refl e), (λ e. absurd (apart "e1" "e3" refl e), tt))),
  (
    (λ e. absurd (apart "e2" "e1" refl e), (λ e. refl, (λ e. absurd (apart "e2" "e3" refl e), tt))),
    (
      (
        λ e. absurd (apart "e3" "e1" refl e),
        (λ e. absurd (apart "e3" "e2" refl e), (λ e. refl, tt)),
      ),
      tt,
    ),
  ),
)

same_head_same_history_example : map unsigned_payload events ≡ map unsigned_payload events
same_head_same_history_example =
    same_head_same_history toy trusted trusted py none (some file) (some lines) (some lines)
      (clean 3) (clean 3) events events run_lines run_with_witness refl refl no_collision refl
