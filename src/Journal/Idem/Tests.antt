-- ===== src/Journal/Idem/Tests.antt =====
-- Runs of the idempotency index and of the full scan.
use tesera.Common.{◌≡◌, refl, true, none, some, List, [], ◌∷◌, String}
use tesera.Json.{has, get, is_true, is_str, Json, Event, str, null, field, end}
use tesera.Journal.Idem.{evolve_idem_tables, scan_event, scan, empty_tables, collect}
use tesera.Journal.Idem.Query.{scan_blocking, indexed_blocking}
use tesera.Journal.Idem.Simulation.{are_linked}
use tesera.Journal.Idem.Agree.{index_agrees_with_scan}

abbrev decision : String → Event
decision id = field "event_type" (str "decision") (
    field "event_id" (str id) (
      field "decision" (str "allowed")
        (field "action_name" (str "refund") (field "idempotency_key" (str "k") end))))

abbrev outcome : Json → String → Event
outcome status id =
    field "event_type" (str "outcome")
      (field "decision_event_id" (str id) (field "status" status end))

abbrev resolution : String → String → Event
resolution verdict id =
    field "event_type" (str "resolution")
      (field "decision_event_id" (str id) (field "resolution" (str verdict) end))

-- The first attempt failed, the second was released, and the third succeeded.
abbrev retried : List Event
retried =
    decision "d1"
    ∷ outcome (str "failed") "d1"
    ∷ decision "d2"
    ∷ resolution "confirmed_not_completed" "d2"
    ∷ decision "d3"
    ∷ outcome (str "succeeded") "d3"
    ∷ []

third_blocks : scan_blocking "refund" "k" retried ≡ some "d3"
unfolding scan_blocking scan scan_event is_str is_true
third_blocks = refl

first_two_do_not :
    scan_blocking "refund" "k" (decision "d1" ∷ outcome (str "failed") "d1" ∷ []) ≡ none
unfolding scan_blocking scan scan_event is_str is_true
first_two_do_not = refl

retried_linked : are_linked [] retried ≡ true
unfolding are_linked is_str get
retried_linked = refl

index_agrees_with_scan_example :
    indexed_blocking "refund" "k" (collect empty_tables retried)
    ≡ some (scan_blocking "refund" "k" retried)
index_agrees_with_scan_example = index_agrees_with_scan "refund" "k" retried retried_linked

-- An outcome whose status is no text: the scan counts it, the index does not.
abbrev odd : List Event
odd = decision "d1" ∷ outcome null "d1" ∷ []

scan_released : scan_blocking "refund" "k" odd ≡ none
unfolding scan_blocking scan scan_event is_str is_true
scan_released = refl

index_blocked : indexed_blocking "refund" "k" (collect empty_tables odd) ≡ some (some "d1")
unfolding indexed_blocking collect evolve_idem_tables is_str is_true has
index_blocked = refl
