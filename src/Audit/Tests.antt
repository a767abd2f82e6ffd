-- ===== src/Audit/Tests.antt =====
-- An audit of a small journal, and the theorems at it.
use tesera.Json.Equality.{json_eq}
use tesera.Audit.Linked.{linked_in}
use tesera.Common.{◌≡◌, refl, true, Option, none, some, List, [], ◌∷◌, String, map, all_of}
use tesera.Json.{is_true, get, is_str, Json, Event, str, field, end, as_str}
use tesera.Verification.Journal.{VerificationResult}
use tesera.Audit.{
  index_from, empty_index, AuditReport, InvocationStatus, succeeded, needs_reconciliation,
  has_unsettled,
}
use tesera.Audit.Report.{
  status_of, invocation_of, audit_verified_snapshot, report_of, project_audit_event,
}
use tesera.Audit.Direct.{audit_invocations, direct_invocation, first_decisions}
use tesera.Audit.Streaming.{streaming_audit_agrees}
use tesera.Audit.Settled.{nothing_is_lost, is_accounted_event}

abbrev text : Option String → String
text none = ""
text (some s) = s

-- `str` on texts; every other value is taken for the empty text.
abbrev plain : Json → String
plain v = text (as_str v)

abbrev decision : String → String → Event
decision id value = field "event_type" (str "decision") (
    field "event_id" (str id) (
      field "decision" (str value)
        (field "action_name" (str "refund") (field "action_id" (str "a1") end))))

abbrev linked : String → String → String → String → Event → Event
linked type id decision_id name rest =
    field "event_type" (str type)
      (field "event_id" (str id) (field "decision_event_id" (str decision_id) rest))

abbrev outcome : String → String → String → Event
outcome id decision_id status = linked "outcome" id decision_id status (
    field "status" (str status)
      (field "action_name" (str "refund") (field "action_id" (str "a1") end)))

abbrev resolution : String → String → String → Event
resolution id decision_id value =
    linked "resolution" id decision_id value (field "resolution" (str value) end)

-- One success, one denial, one allowance whose outcome is missing but was confirmed.
abbrev journal : List Event
journal =
    decision "d1" "allowed"
    ∷ outcome "o1" "d1" "succeeded"
    ∷ decision "d2" "denied"
    ∷ decision "d3" "allowed"
    ∷ resolution "r1" "d3" "confirmed_completed"
    ∷ []

-- The same without the resolution.
abbrev open_journal : List Event
open_journal =
    decision "d1" "allowed" ∷ outcome "o1" "d1" "succeeded" ∷ decision "d3" "allowed" ∷ []

abbrev verified : VerificationResult
verified = record { valid = true; events_verified = 5; issues = [] }

abbrev report : AuditReport
report = record {
  invocations = map (direct_invocation plain journal) (first_decisions plain [] 0 journal);
  issues = [];
}

report_eq : audit_verified_snapshot plain verified journal ≡ some report
unfolding audit_verified_snapshot first_decisions is_str get linked_in json_eq is_true
report_eq = refl

-- The whole report, with the issues of the loops.
abbrev clean_report : AuditReport
clean_report = report_of plain (index_from plain 0 journal empty_index)

clean_eq : audit_verified_snapshot plain verified journal ≡ some clean_report
unfolding audit_verified_snapshot
clean_eq = refl

abbrev statuses : Option AuditReport → List InvocationStatus
statuses none = []
statuses (some r) = map (λ i. i.status) r.invocations

open_statuses :
    statuses (audit_verified_snapshot plain verified open_journal)
    ≡ succeeded ∷ needs_reconciliation ∷ []
unfolding audit_verified_snapshot is_str get is_true
open_statuses = refl

streaming_audit_agrees_example :
    audit_verified_snapshot plain verified (map project_audit_event open_journal)
    ≡ audit_verified_snapshot plain verified open_journal
streaming_audit_agrees_example = streaming_audit_agrees plain verified open_journal

streamed_statuses :
    statuses (audit_verified_snapshot plain verified (map project_audit_event open_journal))
    ≡ succeeded ∷ needs_reconciliation ∷ []
unfolding audit_verified_snapshot is_str get project_audit_event is_true
streamed_statuses = refl

audit_invocations_example :
    report.invocations ≡ map (direct_invocation plain journal) (first_decisions plain [] 0 journal)
audit_invocations_example = audit_invocations plain verified journal report report_eq

nothing_is_lost_example : all_of (is_accounted_event plain journal) journal ≡ true
unfolding has_unsettled first_decisions is_str get invocation_of status_of is_true linked_in
    report_of index_from json_eq
nothing_is_lost_example = nothing_is_lost plain verified journal clean_report clean_eq refl refl
