-- ===== src/Engine/Tests.antt =====
-- Runs of the decision of a guarded call.
use tesera.Journal.Append.{locked_blocking_prior_id}
use tesera.Json.Payload.{finite_fields}
use tesera.Common.{◌≤◌, ◌≡◌, refl, true, false, Option, none, some, [], ◌∷◌, String}
use tesera.Json.{Event, null, str, get, as_str, is_str, is_true, has, field, end}
use tesera.Verification.{Crypto, value}
use tesera.Journal.Idem.{scan_event, evolve_idem_tables, collect, scan, empty_scan}
use tesera.Journal.Idem.Query.{is_blocking, is_candidate, indexed_blocking}
use tesera.Journal.Idem.Simulation.{are_linked}
use tesera.Engine.{Call, Decision, Stamp, append_decision}
use tesera.Policy.{Reason, allow}
use tesera.Engine.Prepare.{
  Supplied, returns, no_decision, other_error, approval_error, duplicate, not_decided,
  prepare_execution,
}
use tesera.Engine.AtMostOnce.{live, Reaches, start, append, decided}
use tesera.Engine.AtMostOnce.Bound.{at_most_one_live}

-- The digest of a payload is its id, and a digest signs itself.
abbrev text : Option String → String
text none = ""
text (some s) = s

abbrev toy : Crypto
toy = record {
  PublicKey = Unit {0};
  digest = λ fs. text (as_str (get "event_id" fs));
  verify = λ key digest signature. true;
}

abbrev stamp : String → Stamp
stamp id = record { key_id = "k1"; sign = λ d. d; event_id = id; timestamp_utc = "now" }

abbrev call : Call
call = record {
  contract = record {
    action_id = "a";
    action_name = "refund";
    contract_hash = "c";
    risk = "high";
    approval_mode = "required";
  };
  input_summary = str "";
  parameter_retention = null;
  input_hash = "i";
  spend_cents = none;
  metadata = none;
  dry_run = false;
}

abbrev yes : Decision
yes = record { allowed = true; reason = "ok"; approved_by = none }

abbrev first : Event
first = field "schema_version" (str "1") (
    field "event_type" (str "decision") (
      field "event_id" (str "d1") (
        field "action_id" (str "a") (
          field "action_name" (str "refund") (
            field "contract_hash" (str "c") (
              field "timestamp_utc" (str "now") (
                field "key_id" (str "k1") (
                  field "previous_event_hash" null (
                    field "decision" (str "allowed") (
                      field "risk" (str "high") (
                        field "approval_mode" (str "required") (
                          field "redacted_input_summary" (str "") (
                            field "parameter_retention" null (
                              field "input_hash" (str "i") (
                                field "approval_reason" (str "ok") (
                                  field "idempotency_key" (str "k") (
                                    field "event_hash" (str "d1")
                                      (field "signature" (str "d1") end))))))))))))))))))

-- The same call again is denied as a duplicate of the first.
abbrev second : Event
second = field "schema_version" (str "1") (
    field "event_type" (str "decision") (
      field "event_id" (str "d2") (
        field "action_id" (str "a") (
          field "action_name" (str "refund") (
            field "contract_hash" (str "c") (
              field "timestamp_utc" (str "now") (
                field "key_id" (str "k1") (
                  field "previous_event_hash" (str "d1") (
                    field "decision" (str "denied") (
                      field "risk" (str "high") (
                        field "approval_mode" (str "required") (
                          field "redacted_input_summary" (str "") (
                            field "parameter_retention" null (
                              field "input_hash" (str "i") (
                                field "idempotency_key" (str "k") (
                                  field "approval_reason"
                                    (str "duplicate idempotency key; already reserved or completed")
                                    (field "duplicate_of" (str "d1") (
                                      field "event_hash" (str "d2")
                                        (field "signature" (str "d2") end)))))))))))))))))))

first_run : append_decision toy (stamp "d1") call yes "k" false [] ≡ value (first, first ∷ [])
unfolding append_decision indexed_blocking collect finite_fields get
first_run = refl

second_run :
    append_decision toy (stamp "d2") call yes "k" false (first ∷ [])
    ≡ value (second, first ∷ second ∷ [])
unfolding append_decision indexed_blocking collect evolve_idem_tables is_str is_true has
    finite_fields
second_run = refl

first_linked : are_linked [] (first ∷ []) ≡ true
unfolding are_linked is_str get
first_linked = refl

second_linked : are_linked [] (first ∷ second ∷ []) ≡ true
unfolding are_linked is_str get
second_linked = refl

reached : Reaches toy (first ∷ second ∷ [])
reached =
    append (append start (decided (stamp "d1") call yes "k" false first first_run) first_linked)
      (decided (stamp "d2") call yes "k" false second second_run) second_linked

first_lives : live "refund" "k" (scan empty_scan (first ∷ second ∷ [])) ≡ 1
unfolding scan scan_event is_str is_candidate is_true is_blocking
first_lives = refl

at_most_one_live_example : live "refund" "k" (scan empty_scan (first ∷ second ∷ [])) ≤ 1
at_most_one_live_example = at_most_one_live toy "refund" "k" (first ∷ second ∷ []) reached

abbrev supplied : Supplied
supplied = record { is_auto_allow = false; answer = returns (allow (Reason.text "ok")) }

run_again :
    prepare_execution toy
      (stamp "d2")
      call
      (λ d. "ok")
      (λ d. none)
      "k"
      false
      (first ∷ [])
      (some supplied)
      no_decision
      no_decision
    ≡ duplicate (some "d1") (first ∷ second ∷ [])
unfolding prepare_execution locked_blocking_prior_id indexed_blocking collect evolve_idem_tables
    is_str is_true has append_decision finite_fields
run_again = refl

run_failed :
    prepare_execution toy
      (stamp "d1")
      call
      (λ d. "ok")
      (λ d. none)
      "k"
      false
      []
      (some (record { is_auto_allow = false; answer = other_error }))
      no_decision
      no_decision
    ≡ not_decided approval_error
unfolding prepare_execution
run_failed = refl
