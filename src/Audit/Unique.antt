-- ===== src/Audit/Unique.antt =====
-- The issues of the first loop of `audit_verified_snapshot` of src/tesera/audit.py on event ids that
-- stand more than once.
use tesera.Common.{
  ℕ, suc, ◌≡◌, refl, sym, ap, ◌∙◌, subst, Bool, true, false, not, List, [], ◌∷◌, ◌++◌, String, ◌&&◌,
  any_of, Bool-cases, inl, inr,
}
use tesera.Json.{Json, Event, get, is_str}
use tesera.Audit.{
  Numbered, Index, AuditIssue, AuditReport, IssueCode, duplicate_event_id, empty_index, is_in,
  issue_if, note_id, str_of, file_event, index_event, index_from,
}
use tesera.Audit.Report.{report_of, all_resolution_issues, all_outcome_issues, audit_decisions}

abbrev is_duplicate_code : IssueCode → Bool
is_duplicate_code duplicate_event_id = true
is_duplicate_code _ = false

-- The report says of some event id that it is not unique.
abbrev pub has_duplicate : AuditReport → Bool
has_duplicate report = any_of (λ i. is_duplicate_code i.code) report.issues

abbrev any_duplicate : List AuditIssue → Bool
any_duplicate issues = any_of (λ i. is_duplicate_code i.code) issues

any_duplicate-append :
    (xs ys : List AuditIssue)
    → any_duplicate (xs ++ ys) ≡ false
    → (any_duplicate xs ≡ false) × (any_duplicate ys ≡ false)
any_duplicate-append [] ys h = (refl, h)
any_duplicate-append (x ∷ xs) ys h = elim (Bool-cases (is_duplicate_code x.code)) [
  | inl y ↦ absurd (cc (rw y at h))
  | inr n ↦ let (first, rest) = any_duplicate-append xs ys (rw n at h) in (rw n first, rest)
]

first_issues :
    (a b c d : List AuditIssue) → any_duplicate (a ++ b ++ c ++ d) ≡ false → any_duplicate a ≡ false
first_issues a b c d h =
    (any_duplicate-append a b
      (any_duplicate-append (a ++ b) c (any_duplicate-append (a ++ b ++ c) d h).0).0).0

module _ (python_str : Json → String) where
  -- No event has the id of one before it, or an id of the list.
  abbrev pub fresh_ids : List String → List Event → Bool
  fresh_ids seen [] = true
  fresh_ids seen (event ∷ events) =
      let id = str_of python_str "event_id" event in
      not (is_in id seen) && fresh_ids (id ∷ seen) events

  file_event-keeps :
      (x : Numbered) (ix : Index)
      → ((file_event python_str x ix).issues ≡ ix.issues)
        × ((file_event python_str x ix).seen_event_ids ≡ ix.seen_event_ids)
  unfolding file_event
  file_event-keeps (i, event) ix =
      let t = get "event_type" event in
      elim (Bool-cases (is_str "decision" t)) [
        | inl d ↦ rw d (refl, refl)
        | inr nd ↦ elim (Bool-cases (is_str "outcome" t)) [
          | inl o ↦ rw (nd, o) (refl, refl)
          | inr m ↦ elim (Bool-cases (is_str "resolution" t)) [
            | inl r ↦ rw (nd, m, r) (refl, refl)
            | inr nr ↦ rw (nd, m, nr) (refl, refl)
          ]
        ]
      ]

  no_issue-fresh :
      (b : Bool) (id : String)
      → any_duplicate (issue_if b duplicate_event_id id) ≡ false
      → not b ≡ true
  no_issue-fresh true id h = absurd (cc h)
  no_issue-fresh false id h = refl

  -- What the body of the loop leaves, if no issue of the kind stands in what follows.
  after_event :
      (x : Numbered) (ix : Index)
      → any_duplicate (index_event python_str x ix).issues ≡ false
      → (any_duplicate ix.issues ≡ false)
        × (not (is_in (str_of python_str "event_id" x.1) ix.seen_event_ids) ≡ true)
  unfolding index_event
  after_event (i, event) ix h =
      let id = str_of python_str "event_id" event in
      let kept = file_event-keeps (i, event) (note_id id ix) in
      let (first, last) =
        any_duplicate-append ix.issues (issue_if (is_in id ix.seen_event_ids) duplicate_event_id id)
          (sym (ap any_duplicate kept.0) ∙ h) in
      (first, no_issue-fresh (is_in id ix.seen_event_ids) id last)

  index_event-seen :
      (x : Numbered) (ix : Index)
      → (index_event python_str x ix).seen_event_ids
        ≡ str_of python_str "event_id" x.1 ∷ ix.seen_event_ids
  unfolding index_event
  index_event-seen (i, event) ix =
      (file_event-keeps (i, event) (note_id (str_of python_str "event_id" event) ix)).1

  index_from-fresh :
      (i : ℕ) (events : List Event) (ix : Index)
      → any_duplicate (index_from python_str i events ix).issues ≡ false
      → (any_duplicate ix.issues ≡ false) × (fresh_ids ix.seen_event_ids events ≡ true)
  unfolding index_from
  index_from-fresh i [] ix h = (h, refl)
  index_from-fresh i (event ∷ events) ix h =
      let next = index_event python_str (i, event) ix in
      let (none, fresh) = index_from-fresh (suc i) events next h in
      let (before, new) = after_event (i, event) ix none in
      let rest =
        subst (λ seen. fresh_ids seen events ≡ true) (index_event-seen (i, event) ix) fresh in
      (before, rw (new, rest) refl)

  -- A report without the issue is on events with different ids.
  pub report_of-fresh :
      (events : List Event)
      → has_duplicate (report_of python_str (index_from python_str 0 events empty_index)) ≡ false
      → fresh_ids [] events ≡ true
  unfolding report_of
  report_of-fresh events h =
      let ix = index_from python_str 0 events empty_index in
      (index_from-fresh 0 events empty_index (
        first_issues ix.issues (all_resolution_issues python_str ix.decisions ix.resolutions)
          (all_outcome_issues python_str ix.decisions ix.outcomes)
          (audit_decisions python_str ix.outcomes ix.resolutions ix.decisions []).1 h)).1
