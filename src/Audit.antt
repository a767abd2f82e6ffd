-- ===== src/Audit.antt =====
-- `audit_verified_snapshot` of src/tesera/audit.py: what happened to each approved invocation, from
-- the events of a verified snapshot. `event[k]` is `get`: the keys that the audit indexes are
-- required fields of a verified event. `python_str` is Python's `str` of a JSON value.
pub mod Report
pub mod Linked
pub mod Direct
pub mod Unique
pub mod Settled
pub mod Projected
pub mod StreamedIssues
pub mod Streaming
mod Tests
use tesera.Common.{
  ℕ, suc, Bool, true, false, not, Option, none, some, List, [], ◌∷◌, ◌++◌, String, ◌&&◌, ◌||◌, map,
  str_eq, any_of, leb, if◌then◌else◌,
}
use tesera.Common.Dict.{Dict, lookup, insert, get_or, contains}
use tesera.Json.{Json, Event, get, as_str, is_str, is_true}
use tesera.Json.Equality.{json_eq}

pub data InvocationStatus : Type 0 where
  denied succeeded failed needs_reconciliation dry_run : InvocationStatus
  resolved_completed resolved_not_completed : InvocationStatus

-- The code of an issue, with the values that its message holds.
pub data IssueCode : Type 0 where
  duplicate_event_id : IssueCode
  orphan_resolution : String → IssueCode
  conflicting_values : IssueCode
  resolution_before_decision : IssueCode
  orphan_outcome : String → IssueCode
  duplicate_outcome : IssueCode
  outcome_before_decision : IssueCode
  outcome_for_denied_decision : IssueCode
  outcome_identity_mismatch : String → IssueCode
  invalid_outcome_status : Json → IssueCode
  invalid_decision : Json → IssueCode
  contradicting_resolution : IssueCode
  duplicate_idempotency_key : String → String → IssueCode

pub record AuditIssue : Type 0 where
  pub code : IssueCode
  pub event_id : String

pub record AuditedInvocation : Type 0 where
  pub action_name : String
  pub action_id : String
  pub contract_hash : String
  pub input_hash : String
  pub risk : String
  pub approval_mode : String
  pub decision_event_id : String
  pub decision : String
  pub decision_timestamp_utc : String
  pub outcome_event_id : Option String
  pub outcome_timestamp_utc : Option String
  pub status : InvocationStatus

pub record AuditReport : Type 0 where
  pub invocations : List AuditedInvocation
  pub issues : List AuditIssue

-- An event with its index in the snapshot.
abbrev pub Numbered : Type 0
Numbered = ℕ × Event

-- The state of the first loop.
pub record Index : Type 0 where
  pub issues : List AuditIssue
  pub decisions : Dict Numbered
  pub outcomes : Dict (List Numbered)
  pub resolutions : Dict (List Numbered)
  pub seen_event_ids : List String

abbrev pub empty_index : Index
empty_index = record {
  issues = [];
  decisions = [];
  outcomes = [];
  resolutions = [];
  seen_event_ids = [];
}

abbrev pub issue : IssueCode → String → AuditIssue
issue code event_id = record { code = code; event_id = event_id }

abbrev pub issue_if : Bool → IssueCode → String → List AuditIssue
issue_if b code event_id = if b then issue code event_id ∷ [] else []

-- `s in names`
abbrev pub is_in : String → List String → Bool
is_in s names = any_of (λ n. str_eq n s) names

-- `d.setdefault(k, v)`
unfoldable pub set_default {ℓ} : {V : Type ℓ} → String → V → Dict V → Dict V
unfolding contains insert
set_default k v d = if contains k d then d else insert k v d

-- `d.setdefault(k, []).append(x)`
unfoldable pub append_to {ℓ} : {V : Type ℓ} → String → V → Dict (List V) → Dict (List V)
unfolding get_or insert
append_to k x d = insert k (get_or [] k d ++ x ∷ []) d

abbrev pub is_settled : InvocationStatus → Bool
is_settled failed = false
is_settled needs_reconciliation = false
is_settled _ = true

-- `AuditReport.structurally_valid`
unfoldable pub structurally_valid : AuditReport → Bool
structurally_valid report = elim report.issues [ [] ↦ true | ◌∷◌ _ _ ↦ false ]

-- `AuditReport.needs_reconciliation`, the property.
unfoldable pub has_unsettled : AuditReport → Bool
has_unsettled report = any_of (λ i. not (is_settled i.status)) report.invocations

abbrev pub is_many : List Numbered → Bool
is_many [] = false
is_many (_ ∷ []) = false
is_many (_ ∷ _ ∷ _) = true

abbrev pub is_known_status : Json → Bool
is_known_status v = is_str "succeeded" v || is_str "failed" v

-- The test on `seen_event_ids`, and the new id in it.
abbrev pub note_id : String → Index → Index
note_id event_id ix = record ix {
  issues = ix.issues ++ issue_if (is_in event_id ix.seen_event_ids) duplicate_event_id event_id;
  seen_event_ids = event_id ∷ ix.seen_event_ids;
}

module _ (python_str : Json → String) where
  abbrev pub str_of : String → Event → String
  str_of k event = python_str (get k event)

  -- The branch of the first loop on the event type.
  unfoldable pub file_event : Numbered → Index → Index
  unfolding set_default append_to
  file_event (i, event) ix =
      let event_type = get "event_type" event in
      let decision_id = str_of "decision_event_id" event in
      if is_str "decision" event_type
      then record ix { decisions = set_default (str_of "event_id" event) (i, event) ix.decisions }
      else if is_str "outcome" event_type
      then record ix { outcomes = append_to decision_id (i, event) ix.outcomes }
      else if is_str "resolution" event_type
      then record ix { resolutions = append_to decision_id (i, event) ix.resolutions }
      else ix

  -- The body of the first loop.
  unfoldable pub index_event : Numbered → Index → Index
  unfolding file_event
  index_event (i, event) ix = file_event (i, event) (note_id (str_of "event_id" event) ix)

  -- The first loop, from an index on.
  unfoldable pub index_from : ℕ → List Event → Index → Index
  unfolding index_event
  index_from i [] ix = ix
  index_from i (event ∷ events) ix = index_from (suc i) events (index_event (i, event) ix)

  -- `len({...}) > 1` on the resolution values.
  unfoldable pub has_conflict : List Numbered → Bool
  has_conflict [] = false
  has_conflict (first ∷ rest) =
      any_of (λ r. not (str_eq (str_of "resolution" r.1) (str_of "resolution" first.1))) rest

  unfoldable pub early_resolutions : ℕ → List Numbered → List AuditIssue
  early_resolutions decision_index [] = []
  early_resolutions decision_index ((i, resolution) ∷ rest) =
      issue_if (leb i decision_index) resolution_before_decision (str_of "event_id" resolution)
      ++ early_resolutions decision_index rest

  -- The body of the loop over the resolutions.
  unfoldable pub resolution_issues : Dict Numbered → String × List Numbered → List AuditIssue
  unfolding has_conflict early_resolutions lookup
  resolution_issues decisions (decision_id, linked) = elim (lookup decision_id decisions) [
    | none ↦ map (λ r. issue (orphan_resolution decision_id) (str_of "event_id" r.1)) linked
    | some d ↦
        issue_if (has_conflict linked) conflicting_values decision_id
        ++ early_resolutions d.0 linked
  ]

  abbrev pub mismatch : Event → Event → String → List AuditIssue
  mismatch outcome decision name =
      issue_if (not (json_eq (get name outcome) (get name decision)))
        (outcome_identity_mismatch name) (str_of "event_id" outcome)

  -- The checks on one outcome of a known decision.
  unfoldable pub linked_issues : Numbered → Numbered → List AuditIssue
  linked_issues (decision_index, decision) (i, outcome) =
      let outcome_id = str_of "event_id" outcome in
      issue_if (leb i decision_index) outcome_before_decision outcome_id
      ++ issue_if (not (is_str "allowed" (get "decision" decision))) outcome_for_denied_decision
          outcome_id
      ++ mismatch outcome decision "action_id"
      ++ mismatch outcome decision "action_name"
      ++ mismatch outcome decision "contract_hash"
      ++ issue_if (not (is_known_status (get "status" outcome)))
          (invalid_outcome_status (get "status" outcome)) outcome_id

  unfoldable pub all_linked_issues : Numbered → List Numbered → List AuditIssue
  unfolding linked_issues
  all_linked_issues decision [] = []
  all_linked_issues decision (outcome ∷ rest) =
      linked_issues decision outcome ++ all_linked_issues decision rest

  -- The body of the loop over the outcomes.
  unfoldable pub outcome_issues : Dict Numbered → String × List Numbered → List AuditIssue
  unfolding all_linked_issues lookup
  outcome_issues decisions (decision_id, linked) = elim (lookup decision_id decisions) [
    | none ↦ map (λ o. issue (orphan_outcome decision_id) (str_of "event_id" o.1)) linked
    | some d ↦ issue_if (is_many linked) duplicate_outcome decision_id ++ all_linked_issues d linked
  ]
