-- ===== src/Journal/Idem/Agree.antt =====
-- The index answers as the full scan does, on journals whose events are linked.
use tesera.Common.{
  true, Option, none, some, List, [], ◌∷◌, String, ◌≡◌, refl, ap, sym, ◌&&◌, not, arith,
  if◌then◌else◌, Bool-cases, Option-cases, inl, inr, filter_if, All,
}
use tesera.Common.Dict.{Dict, contains, get_or}
use tesera.Json.{Event, get, has, as_str, is_str}
use tesera.Journal.Idem.{
  IdemTables, ScanState, empty_tables, empty_scan, ids_of, is_tracked, evolve_idem_tables,
  evolve_decision, evolve_outcome, evolve_resolution, scan_event, scan_decision, scan_outcome,
  scan_resolution, collect, scan,
}
use tesera.Journal.Idem.Query.{
  pick, is_candidate, blocking_prior, prior_id, scan_blocking, indexed_blocking,
}
use tesera.Journal.Idem.Facts.{is_blocking-texts}
use tesera.Journal.Idem.Simulation.{
  Simulates, known_text, is_text, is_linked, next_ids, are_linked, add_known, tracked, is_keyed,
  SameTexts,
}
use tesera.Journal.Idem.Decisions.{decision_tracked, decision_untracked}
use tesera.Journal.Idem.Links.{outcome_step, resolution_step}

decision_case :
    (ids : List String) (s : ScanState) (t : IdemTables) (event : Event) (o : Option String)
    → Simulates ids s t
    → not (known_text o ids) ≡ true
    → Simulates
        (add_known o ids)
        (scan_decision s event o)
        (if is_tracked event then evolve_decision t event o else t)
decision_case ids s t event none m h = elim (Bool-cases (is_tracked event)) [
  | inl y ↦ rw y (unfold scan_decision evolve_decision in m)
  | inr n ↦ rw n (unfold scan_decision in m)
]
decision_case ids s t event (some id) m h = elim (Bool-cases (is_tracked event)) [
  | inl y ↦ rw y (decision_tracked ids s t event id m (ground arith) y)
  | inr n ↦ rw n (decision_untracked ids s t event id m (ground arith) n)
]

outcome_case :
    (ids : List String) (s : ScanState) (t : IdemTables) (event : Event) (ref : Option String)
    → Simulates ids s t
    → (known_text ref ids && is_text (as_str (get "status" event))) ≡ true
    → Simulates ids (scan_outcome s event ref) (evolve_outcome t ref (as_str (get "status" event)))
outcome_case ids s t event none m h = cc
outcome_case ids s t event (some ref) m h = elim (Option-cases (as_str (get "status" event))) [
  | inl n ↦ absurd (ground arith)
  | inr (v, e) ↦ rw e (outcome_step ids s t event ref v m (ground arith) e)
]

resolution_case :
    (ids : List String) (s : ScanState) (t : IdemTables) (event : Event) (ref : Option String)
    → Simulates ids s t
    → (known_text ref ids && is_text (as_str (get "resolution" event))) ≡ true
    → Simulates ids
        (scan_resolution s event ref)
        (evolve_resolution t ref (as_str (get "resolution" event)))
resolution_case ids s t event none m h = cc
resolution_case ids s t event (some ref) m h =
    elim (Option-cases (as_str (get "resolution" event))) [
      | inl n ↦ absurd (ground arith)
      | inr (v, e) ↦ rw e (resolution_step ids s t event ref v m (ground arith) e)
    ]

Simulates-step :
    (ids : List String) (s : ScanState) (t : IdemTables) (event : Event)
    → Simulates ids s t
    → is_linked ids event ≡ true
    → Simulates (next_ids ids event) (scan_event s event) (evolve_idem_tables t event)
unfolding is_linked next_ids scan_event evolve_idem_tables
Simulates-step ids s t event m h = elim (Bool-cases (is_str "decision" (get "event_type" event))) [
  | inl d ↦ rw d (decision_case ids s t event _ m (rw (d, is_linked) at h))
  | inr d ↦ rw d (elim (Bool-cases (is_str "outcome" (get "event_type" event))) [
    | inl o ↦ rw o (outcome_case ids s t event _ m (rw (d, o, is_linked) at h))
    | inr o ↦ rw o (elim (Bool-cases (is_str "resolution" (get "event_type" event))) [
      | inl r ↦ rw r (resolution_case ids s t event _ m (rw (d, o, r, is_linked) at h))
      | inr r ↦ rw r m
    ])
  ])
]

Simulates-events :
    (ids : List String) (s : ScanState) (t : IdemTables) (events : List Event)
    → Simulates ids s t
    → are_linked ids events ≡ true
    → (ids' : List String) × Simulates ids' (scan s events) (collect t events)
unfolding are_linked scan collect
Simulates-events ids s t [] m h = (ids, m)
Simulates-events ids s t (event ∷ events) m h =
    let here : is_linked ids event ≡ true = ground arith in
    let rest : are_linked (next_ids ids event) events ≡ true = ground arith in
    Simulates-events (next_ids ids event) (scan_event s event) (evolve_idem_tables t event) events
      (Simulates-step ids s t event m here) rest

-- The empty tables stand for the empty scan.
Simulates-empty : Simulates [] empty_scan empty_tables
unfolding contains get_or ids_of pick
Simulates-empty = record {
  known = λ id. refl;
  same_decisions = refl;
  candidates = λ action key. refl;
  same_outcomes = tt;
  same_resolutions = tt;
  scan_outcomes = λ id n. refl;
  scan_resolutions = λ id n. refl;
  index_outcomes = λ id n. refl;
  index_resolutions = λ id n. refl;
}

candidate_eq :
    (action key id : String) (event : Event)
    → is_candidate action key event ≡ (is_tracked event && is_keyed action key (id, event))
unfolding is_candidate is_str has get
candidate_eq action key id event = ground arith

-- The loop over all decisions, and over those that the index keeps under the key.
blocking_filtered :
    (o r o' r' : Dict (List Event)) (action key : String) (d : Dict Event)
    → All (SameTexts "status" o o') (filter_if tracked d)
    → All (SameTexts "resolution" r r') (filter_if tracked d)
    → blocking_prior o r action key d
      ≡ blocking_prior o' r' action key (filter_if (is_keyed action key) (filter_if tracked d))
unfolding blocking_prior
blocking_filtered o r o' r' action key [] h k = refl
blocking_filtered o r o' r' action key ((id, event) ∷ d) h k =
    elim (Bool-cases (is_tracked event)) [
      | inr n ↦
          rw (candidate_eq action key id event, n)
            (blocking_filtered o r o' r' action key d (rw n at h) (rw n at k))
      | inl y ↦
          let h' : SameTexts "status" o o' (id, event)
              × All (SameTexts "status" o o') (filter_if tracked d) =
            rw y at h in
          let k' : SameTexts "resolution" r r' (id, event)
              × All (SameTexts "resolution" r r') (filter_if tracked d) =
            rw y at k in
          let ih = blocking_filtered o r o' r' action key d h'.1 k'.1 in
          let same =
            is_blocking-texts (get_or [] id o) (get_or [] id o') (get_or [] id r) (get_or [] id r')
              h'.0 k'.0 in
          rw y (elim (Bool-cases (is_keyed action key (id, event))) [
            | inl c ↦ rw (c, candidate_eq action key id event, y, c, same, ih)
            | inr c ↦ rw (c, candidate_eq action key id event, y, c) ih
          ])
    ]

-- On a journal whose decisions have different ids, and whose outcomes and resolutions hold a text
-- and name an earlier decision, the index that is built from the journal answers a blocking query without a KeyError, and with the same decision id as the full scan.
pub index_agrees_with_scan :
    (action key : String) (events : List Event)
    → are_linked [] events ≡ true
    → indexed_blocking action key (collect empty_tables events)
      ≡ some (scan_blocking action key events)
unfolding indexed_blocking scan_blocking
index_agrees_with_scan action key events h =
    let s = scan empty_scan events in
    let t = collect empty_tables events in
    let (ids, m) = Simulates-events [] empty_scan empty_tables events Simulates-empty h in
    let e = m.same_decisions in
    let same =
      blocking_filtered s.outcomes s.resolutions t.outcomes t.resolutions action key s.decisions
        (rw e at m.same_outcomes) (rw e at m.same_resolutions) in
    rw (m.candidates action key, indexed_blocking) (rw e (ap (λ x. some (prior_id x)) (sym same)))
