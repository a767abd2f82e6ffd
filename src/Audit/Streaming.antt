-- ===== src/Audit/Streaming.antt =====
-- `audit_journal_streaming` of src/tesera/audit.py: the audit of the projected events is the audit
-- of the events.
use tesera.Common.{
  ◌≡◌, refl, ap, ◌∙◌, Bool, true, Option, none, some, List, [], ◌∷◌, ◌++◌, String, map,
  if◌then◌else◌,
}
use tesera.Common.Dict.{Dict, get_or, map_values, get_or-map_values}
use tesera.Json.{Json, Event, get, is_true}
use tesera.Verification.Journal.{VerificationResult}
use tesera.Audit.{Numbered, Index, InvocationStatus, index_from, empty_index, is_in}
use tesera.Audit.Report.{
  project_audit_event, audit_event_fields, audit_verified_snapshot, report_of, audit_decisions,
  classify, invocation_of, status_of, decision_issues, only, last, marker_for, check_marker, text,
  Marker,
}
use tesera.Audit.Projected.{
  get-projected, str_of-projected, projected, project_index, index_from-projected,
}
use tesera.Audit.StreamedIssues.{all_resolutions-projected, all_outcomes-projected}

module _ (python_str : Json → String) where
  -- What the loop over the decisions reads of the outcomes.
  text-only-projected :
      (k : String) (l : List Numbered)
      → is_in k audit_event_fields ≡ true
      → text python_str k (only (map projected l)) ≡ text python_str k (only l)
  text-only-projected k [] h = refl
  text-only-projected k ((i, o) ∷ []) h = ap some (str_of-projected python_str k o h)
  text-only-projected k (_ ∷ _ ∷ _) h = refl

  text-last-projected :
      (k : String) (l : List Numbered)
      → is_in k audit_event_fields ≡ true
      → text python_str k (last (map projected l)) ≡ text python_str k (last l)
  unfolding last
  text-last-projected k [] h = refl
  text-last-projected k ((i, r) ∷ []) h = ap some (str_of-projected python_str k r h)
  text-last-projected k (r ∷ q ∷ rest) h = text-last-projected k (q ∷ rest) h

  classify-projected :
      (v : Json) (dry : Bool) (l : List Numbered) (r : Option String)
      → classify v dry (map projected l) (only (map projected l)) r ≡ classify v dry l (only l) r
  unfolding classify
  classify-projected v dry [] r = refl
  classify-projected v dry ((i, o) ∷ []) r = rw (get-projected "status" o refl) refl
  classify-projected v dry (_ ∷ _ ∷ _) r = refl

  status_of-projected :
      (d : Event) (l rs : List Numbered)
      → status_of python_str (project_audit_event d) (map projected l) (map projected rs)
        ≡ status_of python_str d l rs
  unfolding status_of
  status_of-projected d l rs =
      rw
        (
          get-projected "decision" d refl,
          get-projected "dry_run" d refl,
          text-last-projected "resolution" rs refl,
        )
        (classify-projected (get "decision" d) (is_true (get "dry_run" d)) l _)

  invocation_of-projected :
      (id : String) (d : Event) (l : List Numbered) (status : InvocationStatus)
      → invocation_of python_str id (project_audit_event d) (only (map projected l)) status
        ≡ invocation_of python_str id d (only l) status
  unfolding invocation_of
  invocation_of-projected id d l status =
      rw
        (
          str_of-projected python_str "action_name" d refl,
          str_of-projected python_str "action_id" d refl,
          str_of-projected python_str "contract_hash" d refl,
          str_of-projected python_str "input_hash" d refl,
          str_of-projected python_str "risk" d refl,
          str_of-projected python_str "approval_mode" d refl,
          str_of-projected python_str "decision" d refl,
          str_of-projected python_str "timestamp_utc" d refl,
          text-only-projected "event_id" l refl,
          text-only-projected "timestamp_utc" l refl,
        )
        refl

  decision_issues-projected :
      (id : String) (d : Event) (b : Bool)
      → decision_issues python_str id (project_audit_event d) b ≡ decision_issues python_str id d b
  unfolding decision_issues
  decision_issues-projected id d b = rw (get-projected "decision" d refl) refl

  marker_for-projected :
      (d : Event) (status : InvocationStatus)
      → marker_for python_str (project_audit_event d) status ≡ marker_for python_str d status
  marker_for-projected d status =
      rw (get-projected "idempotency_key" d refl, get-projected "action_name" d refl) refl

  audit_decisions-projected :
      (os rs : Dict (List Numbered)) (ds : Dict Numbered) (seen : List Marker)
      → audit_decisions python_str
          (map_values (map projected) os)
          (map_values (map projected) rs)
          (map_values projected ds)
          seen
        ≡ audit_decisions python_str os rs ds seen
  unfolding audit_decisions map_values
  audit_decisions-projected os rs [] seen = refl
  audit_decisions-projected os rs ((id, (i, d)) ∷ ds) seen =
      let o = get_or [] id os in
      let r = get_or [] id rs in
      let status = status_of python_str d o r in
      let checked = check_marker id (marker_for python_str d status.0) seen in
      rw
        (
          get_or-map_values (map projected) [] id os,
          get_or-map_values (map projected) [] id rs,
          status_of-projected d o r,
          invocation_of-projected id d o (status_of python_str d o r).0,
          decision_issues-projected id d (status_of python_str d o r).1,
          marker_for-projected d (status_of python_str d o r).0,
        )
        (ap
          (λ p. (
            invocation_of python_str id d (only o) status.0 ∷ p.0,
            decision_issues python_str id d status.1 ++ checked.0 ++ p.1,
          ))
          (audit_decisions-projected os rs ds checked.1))

  report_of-projected :
      (ix : Index) → report_of python_str (project_index ix) ≡ report_of python_str ix
  unfolding report_of
  report_of-projected ix =
      rw
        (
          all_resolutions-projected python_str ix.decisions ix.resolutions,
          all_outcomes-projected python_str ix.decisions ix.outcomes,
          audit_decisions-projected ix.outcomes ix.resolutions ix.decisions [],
        )
        refl

  -- The streaming audit, which keeps only the projection of each event, gives the same report as
  -- the audit of the full events: the same invocations, the same issues in the same order, and the
  -- same refusal of a snapshot that did not verify.
  pub streaming_audit_agrees :
      (verification : VerificationResult) (events : List Event)
      → audit_verified_snapshot python_str verification (map project_audit_event events)
        ≡ audit_verified_snapshot python_str verification events
  unfolding audit_verified_snapshot map_values
  streaming_audit_agrees verification events =
      ap (λ r. if verification.valid then some r else none)
        (ap (report_of python_str) (index_from-projected python_str 0 events empty_index)
          ∙ report_of-projected (index_from python_str 0 events empty_index))
