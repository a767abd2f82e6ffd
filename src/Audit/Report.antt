-- ===== src/Audit/Report.antt =====
-- The rest of `audit_verified_snapshot`: the status of each invocation, the check on completed
-- idempotency keys, and the report.
use tesera.Common.{
  Bool, true, false, not, Option, none, some, List, [], ◌∷◌, ◌++◌, String, ◌&&◌, ◌||◌, str_eq,
  any_of, if◌then◌else◌,
}
use tesera.Common.Dict.{Dict, get_or}
use tesera.Json.{Json, Event, get, as_str, is_str, is_true, field, end}
use tesera.Verification.Journal.{VerificationResult}
use tesera.Audit.{
  InvocationStatus, succeeded, failed, needs_reconciliation, dry_run, resolved_completed,
  resolved_not_completed, AuditIssue, AuditedInvocation, AuditReport, Numbered, Index, empty_index,
  issue, issue_if, invalid_decision, contradicting_resolution, duplicate_idempotency_key,
  index_from, resolution_issues, outcome_issues, str_of,
}
use tesera.Audit.{denied}

-- `linked[0][1] if len(linked) == 1 else None`
abbrev pub only : List Numbered → Option Event
only [] = none
only (o ∷ []) = some o.1
only (_ ∷ _ ∷ _) = none

-- `linked_resolutions[-1][1]`
unfoldable pub last : List Numbered → Option Event
last [] = none
last (r ∷ []) = some r.1
last (r ∷ q ∷ rest) = last (q ∷ rest)

-- A pair `(action_name, key)`.
abbrev pub Marker : Type 0
Marker = String × String

abbrev pub is_marked : Marker → List Marker → Bool
is_marked (a, k) seen = any_of (λ m. str_eq m.0 a && str_eq m.1 k) seen

abbrev pub is_succeeded : InvocationStatus → Bool
is_succeeded succeeded = true
is_succeeded _ = false

-- Whether an optional outcome is there and has a status.
abbrev pub has_status : String → Option Event → Bool
has_status s none = false
has_status s (some o) = is_str s (get "status" o)

abbrev pub is_some : Option Event → Bool
is_some none = false
is_some (some _) = true

abbrev pub is_value : String → Option String → Bool
is_value s none = false
is_value s (some v) = str_eq v s

abbrev pub is_none : Option String → Bool
is_none none = true
is_none (some _) = false

abbrev pub is_empty : List Numbered → Bool
is_empty [] = true
is_empty (_ ∷ _) = false

-- The chain of branches that gives the status: from the decision's value, its `dry_run`, the
-- outcomes, the only outcome and the value of the last resolution. The Boolean says whether the
-- branch appends the issue `contradicting_resolution`.
unfoldable pub classify :
    Json → Bool → List Numbered → Option Event → Option String → InvocationStatus × Bool
classify decision_value is_dry_run linked outcome resolution =
    let is_allowed = is_str "allowed" decision_value in
    if is_dry_run && (is_allowed && not (is_some outcome))
    then (dry_run, false)
    else if is_str "denied" decision_value && is_empty linked
    then (denied, false)
    else if is_allowed && (has_status "succeeded" outcome && is_none resolution)
    then (succeeded, false)
    else if is_allowed && has_status "succeeded" outcome
    then (needs_reconciliation, true)
    else if is_allowed && is_value "confirmed_completed" resolution
    then (resolved_completed, false)
    else if is_allowed && is_value "confirmed_not_completed" resolution
    then (resolved_not_completed, false)
    else if is_allowed && is_some outcome
    then (if has_status "failed" outcome then failed else needs_reconciliation, false)
    else (needs_reconciliation, false)

-- The key that a completed invocation is marked with.
abbrev pub marker_of : Option String → Option String → InvocationStatus → Option Marker
marker_of (some key) (some name) status =
    if not (str_eq key "") && is_succeeded status then some (name, key) else none
marker_of _ _ status = none

-- The check on a marker: the issues, and the markers seen.
abbrev pub check_marker : String → Option Marker → List Marker → List AuditIssue × List Marker
check_marker decision_id none seen = ([], seen)
check_marker decision_id (some m) seen =
    if is_marked m seen
    then (issue (duplicate_idempotency_key m.0 m.1) decision_id ∷ [], seen)
    else ([], m ∷ seen)

module _ (python_str : Json → String) where
  abbrev pub text : String → Option Event → Option String
  text k none = none
  text k (some e) = some (str_of python_str k e)

  unfoldable pub invocation_of :
      String → Event → Option Event → InvocationStatus → AuditedInvocation
  invocation_of decision_id decision outcome status = record {
    action_name = str_of python_str "action_name" decision;
    action_id = str_of python_str "action_id" decision;
    contract_hash = str_of python_str "contract_hash" decision;
    input_hash = str_of python_str "input_hash" decision;
    risk = str_of python_str "risk" decision;
    approval_mode = str_of python_str "approval_mode" decision;
    decision_event_id = decision_id;
    decision = str_of python_str "decision" decision;
    decision_timestamp_utc = str_of python_str "timestamp_utc" decision;
    outcome_event_id = text "event_id" outcome;
    outcome_timestamp_utc = text "timestamp_utc" outcome;
    status = status;
  }

  -- The status of one decision with what is linked to it.
  unfoldable pub status_of : Event → List Numbered → List Numbered → InvocationStatus × Bool
  unfolding classify last
  status_of decision linked resolutions =
      classify (get "decision" decision) (is_true (get "dry_run" decision)) linked (only linked)
        (text "resolution" (last resolutions))

  unfoldable pub decision_issues : String → Event → Bool → List AuditIssue
  decision_issues decision_id decision contradicts =
      let value = get "decision" decision in
      issue_if (not (is_str "allowed" value || is_str "denied" value)) (invalid_decision value)
        decision_id
      ++ issue_if contradicts contradicting_resolution decision_id

  abbrev pub marker_for : Event → InvocationStatus → Option Marker
  marker_for decision status =
      marker_of (as_str (get "idempotency_key" decision)) (as_str (get "action_name" decision))
        status

  -- The loop over the decisions.
  unfoldable pub audit_decisions :
      Dict (List Numbered)
      → Dict (List Numbered)
      → Dict Numbered
      → List Marker
      → List AuditedInvocation × List AuditIssue
  unfolding status_of invocation_of decision_issues get_or
  audit_decisions outcomes resolutions [] seen = ([], [])
  audit_decisions outcomes resolutions ((decision_id, (i, decision)) ∷ decisions) seen =
      let linked = get_or [] decision_id outcomes in
      let (status, contradicts) = status_of decision linked (get_or [] decision_id resolutions) in
      let (issues, seen') = check_marker decision_id (marker_for decision status) seen in
      let (invocations, more) = audit_decisions outcomes resolutions decisions seen' in
      (
        invocation_of decision_id decision (only linked) status ∷ invocations,
        decision_issues decision_id decision contradicts ++ issues ++ more,
      )

  -- The loops over the resolutions and over the outcomes.
  unfoldable pub all_resolution_issues : Dict Numbered → Dict (List Numbered) → List AuditIssue
  unfolding resolution_issues
  all_resolution_issues decisions [] = []
  all_resolution_issues decisions (r ∷ rs) =
      resolution_issues python_str decisions r ++ all_resolution_issues decisions rs

  unfoldable pub all_outcome_issues : Dict Numbered → Dict (List Numbered) → List AuditIssue
  unfolding outcome_issues
  all_outcome_issues decisions [] = []
  all_outcome_issues decisions (o ∷ os) =
      outcome_issues python_str decisions o ++ all_outcome_issues decisions os

  -- The report from the index.
  unfoldable pub report_of : Index → AuditReport
  unfolding all_resolution_issues all_outcome_issues audit_decisions
  report_of ix =
      let (invocations, issues) = audit_decisions ix.outcomes ix.resolutions ix.decisions [] in
      record {
        invocations = invocations;
        issues =
            ix.issues
            ++ all_resolution_issues ix.decisions ix.resolutions
            ++ all_outcome_issues ix.decisions ix.outcomes
            ++ issues;
      }

  -- `audit_verified_snapshot`; none is the EvidenceAuditError.
  unfoldable pub audit_verified_snapshot : VerificationResult → List Event → Option AuditReport
  unfolding index_from report_of
  audit_verified_snapshot verification events =
      if verification.valid
      then some (report_of (index_from python_str 0 events empty_index))
      else none

-- `_AUDIT_EVENT_FIELDS`
abbrev pub audit_event_fields : List String
audit_event_fields =
    "event_id" ∷ "event_type" ∷ "decision_event_id" ∷ "decision" ∷ "action_id" ∷ "action_name"
    ∷ "contract_hash" ∷ "input_hash" ∷ "risk" ∷ "approval_mode" ∷ "timestamp_utc" ∷ "dry_run"
    ∷ "idempotency_key" ∷ "status" ∷ "resolution" ∷ []

-- The dict comprehension over a set of names.
unfoldable pub project : List String → Event → Event
project [] event = end
project (k ∷ ks) event = field k (get k event) (project ks event)

-- `_project_audit_event`
unfoldable pub project_audit_event : Event → Event
unfolding project
project_audit_event event = project audit_event_fields event
