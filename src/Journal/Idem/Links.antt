-- ===== src/Journal/Idem/Links.antt =====
-- An outcome or a resolution keeps the index in step with the full scan.
use tesera.Common.{true, some, List, String, ◌≡◌, refl, sym, ◌∙◌, Bool-cases, inl, inr, All-map}
use tesera.Common.Dict.{contains}
use tesera.Json.{Event, field, str, end, get, as_str}
use tesera.Journal.Idem.{
  IdemTables, ScanState, evolve_outcome, evolve_resolution, scan_outcome, scan_resolution,
}
use tesera.Journal.Idem.Simulation.{
  Simulates, is_known, absent-All, SameTexts-append, SameTexts-other, Unrecorded-append, All-zip,
}

as_str-status : (v : String) → as_str (get "status" (field "status" (str v) end)) ≡ some v
unfolding get as_str
as_str-status v = refl

as_str-resolution :
    (v : String) → as_str (get "resolution" (field "resolution" (str v) end)) ≡ some v
unfolding get as_str
as_str-resolution v = refl

-- An outcome of a known decision, with its status in a text.
pub outcome_step :
    (ids : List String) (s : ScanState) (t : IdemTables) (event : Event) (ref status : String)
    → Simulates ids s t
    → is_known ref ids ≡ true
    → as_str (get "status" event) ≡ some status
    → Simulates ids (scan_outcome s event (some ref)) (evolve_outcome t (some ref) (some status))
unfolding scan_outcome evolve_outcome
outcome_step ids s t event ref status m k e =
    let known = m.known ref ∙ k in
    let entry = field "status" (str status) end in
    elim (Bool-cases (contains ref t.decisions)) [
      | inl y ↦ rw y (record {
        known = m.known;
        same_decisions = m.same_decisions;
        candidates = m.candidates;
        same_outcomes =
            All-map _ _ t.decisions
              (λ x h.
                SameTexts-append "status" ref event entry s.outcomes t.outcomes x
                  (e ∙ sym (as_str-status status)) h)
              m.same_outcomes;
        same_resolutions = m.same_resolutions;
        scan_outcomes = Unrecorded-append ref event s.decisions s.outcomes known m.scan_outcomes;
        scan_resolutions = m.scan_resolutions;
        index_outcomes = Unrecorded-append ref entry s.decisions t.outcomes known m.index_outcomes;
        index_resolutions = m.index_resolutions;
      })
      | inr n ↦ rw n (record {
        known = m.known;
        same_decisions = m.same_decisions;
        candidates = m.candidates;
        same_outcomes =
            All-zip _ _ _ t.decisions
              (λ x other h. SameTexts-other "status" ref event s.outcomes t.outcomes x other h)
              (absent-All ref t.decisions n) m.same_outcomes;
        same_resolutions = m.same_resolutions;
        scan_outcomes = Unrecorded-append ref event s.decisions s.outcomes known m.scan_outcomes;
        scan_resolutions = m.scan_resolutions;
        index_outcomes = m.index_outcomes;
        index_resolutions = m.index_resolutions;
      })
    ]

-- A resolution of a known decision, with its resolution in a text.
pub resolution_step :
    (ids : List String) (s : ScanState) (t : IdemTables) (event : Event) (ref resolution : String)
    → Simulates ids s t
    → is_known ref ids ≡ true
    → as_str (get "resolution" event) ≡ some resolution
    → Simulates ids
        (scan_resolution s event (some ref))
        (evolve_resolution t (some ref) (some resolution))
unfolding scan_resolution evolve_resolution
resolution_step ids s t event ref resolution m k e =
    let known = m.known ref ∙ k in
    let entry = field "resolution" (str resolution) end in
    elim (Bool-cases (contains ref t.decisions)) [
      | inl y ↦ rw y (record {
        known = m.known;
        same_decisions = m.same_decisions;
        candidates = m.candidates;
        same_resolutions =
            All-map _ _ t.decisions
              (λ x h.
                SameTexts-append "resolution" ref event entry s.resolutions t.resolutions x
                  (e ∙ sym (as_str-resolution resolution)) h)
              m.same_resolutions;
        same_outcomes = m.same_outcomes;
        scan_resolutions =
            Unrecorded-append ref event s.decisions s.resolutions known m.scan_resolutions;
        scan_outcomes = m.scan_outcomes;
        index_resolutions =
            Unrecorded-append ref entry s.decisions t.resolutions known m.index_resolutions;
        index_outcomes = m.index_outcomes;
      })
      | inr n ↦ rw n (record {
        known = m.known;
        same_decisions = m.same_decisions;
        candidates = m.candidates;
        same_resolutions =
            All-zip _ _ _ t.decisions
              (λ x other h.
                SameTexts-other "resolution" ref event s.resolutions t.resolutions x other h)
              (absent-All ref t.decisions n) m.same_resolutions;
        same_outcomes = m.same_outcomes;
        scan_resolutions =
            Unrecorded-append ref event s.decisions s.resolutions known m.scan_resolutions;
        scan_outcomes = m.scan_outcomes;
        index_resolutions = m.index_resolutions;
        index_outcomes = m.index_outcomes;
      })
    ]
