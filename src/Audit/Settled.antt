-- ===== src/Audit/Settled.antt =====
-- What it means that a report has nothing to reconcile.
use tesera.Common.{
  ℕ, suc, ap, ◌∙◌, ◌&&◌, str_eq, ◌≡◌, refl, subst, Bool, true, false, not, Option, none, some, List,
  [], ◌∷◌, String, ◌||◌, map, any_of, all_of, Bool-cases, inl, inr,
}
use tesera.Json.{Json, Event, get, is_str, is_true}
use tesera.Verification.Journal.{VerificationResult}
use tesera.Audit.{
  Numbered, AuditReport, is_settled, has_unsettled, is_in, str_of, index_from, empty_index,
}
use tesera.Audit.Report.{
  classify, only, last, text, has_status, is_value, status_of, invocation_of,
  audit_verified_snapshot, report_of,
}
use tesera.Audit.Linked.{linked_in, is_str-apart}
use tesera.Audit.Direct.{first_decisions, direct_invocation, report_of-invocations}
use tesera.Audit.Unique.{has_duplicate, fresh_ids, report_of-fresh}

-- A decision needs no reconciliation: it is not an allowance, or it was a dry run, or its only
-- outcome is a success, or its last resolution says whether it was completed.
abbrev pub is_accounted : Json → Bool → Option Event → Option String → Bool
is_accounted decision_value is_dry_run outcome resolution =
    not (is_str "allowed" decision_value)
    || (is_dry_run
        || (has_status "succeeded" outcome
            || (is_value "confirmed_completed" resolution
                || is_value "confirmed_not_completed" resolution)))

-- An allowance without success and without resolution is unsettled.
classify-unsettled :
    (v : Json) (linked : List Numbered) (outcome : Option Event) (resolution : Option String)
    → is_str "allowed" v ≡ true
    → has_status "succeeded" outcome ≡ false
    → is_value "confirmed_completed" resolution ≡ false
    → is_value "confirmed_not_completed" resolution ≡ false
    → is_settled (classify v false linked outcome resolution).0 ≡ false
unfolding classify
classify-unsettled v linked none resolution y n c m =
    let apart = is_str-apart "allowed" "denied" v y refl in rw (y, apart, c, m) refl
classify-unsettled v linked (some o) resolution y n c m =
    let apart = is_str-apart "allowed" "denied" v y refl in
    elim (Bool-cases (has_status "failed" (some o))) [
      | inl f ↦ rw (y, apart, n, c, m, f) refl
      | inr nf ↦ rw (y, apart, n, c, m, nf) refl
    ]

classify-accounted :
    (v : Json) (dry : Bool) (linked : List Numbered) (outcome : Option Event)
    (resolution : Option String)
    → is_settled (classify v dry linked outcome resolution).0 ≡ true
    → is_accounted v dry outcome resolution ≡ true
classify-accounted v dry linked outcome resolution h = elim (Bool-cases (is_str "allowed" v)) [
  | inr n ↦ rw n refl
  | inl y ↦ rw y (allowed_case dry y h)
]
  where
    allowed_case :
        (dry : Bool)
        → is_str "allowed" v ≡ true
        → is_settled (classify v dry linked outcome resolution).0 ≡ true
        → (dry
            || (has_status "succeeded" outcome
                || (is_value "confirmed_completed" resolution
                    || is_value "confirmed_not_completed" resolution)))
          ≡ true
    allowed_case true y h = refl
    allowed_case false y h = elim (Bool-cases (has_status "succeeded" outcome)) [
      | inl s ↦ rw s refl
      | inr s ↦ elim (Bool-cases (is_value "confirmed_completed" resolution)) [
        | inl c ↦ rw (s, c) refl
        | inr c ↦ elim (Bool-cases (is_value "confirmed_not_completed" resolution)) [
          | inl m ↦ rw (s, c, m) refl
          | inr m ↦ absurd (cc (h, classify-unsettled v linked outcome resolution y s c m))
        ]
      ]
    ]

not-false : (b : Bool) → not b ≡ false → b ≡ true
not-false true h = refl
not-false false h = absurd (cc h)

or_false : (a b : Bool) → (a || b) ≡ false → (a ≡ false) × (b ≡ false)
or_false true b h = absurd (cc h)
or_false false b h = (refl, h)

and_true : (a b : Bool) → (a && b) ≡ true → (a ≡ true) × (b ≡ true)
and_true true b h = (refl, h)
and_true false b h = absurd (cc h)

some_inj : (a b : AuditReport) → some a ≡ some b → a ≡ b
some_inj a b e = cc e

module _ (python_str : Json → String) where
  -- The test on a decision, from all events of the snapshot.
  abbrev pub is_accounted_in : List Event → String × Numbered → Bool
  is_accounted_in events (id, (i, decision)) =
      is_accounted (get "decision" decision) (is_true (get "dry_run" decision))
        (only (linked_in python_str "outcome" id 0 events))
        (text python_str "resolution" (last (linked_in python_str "resolution" id 0 events)))

  settled-accounted :
      (events : List Event) (ds : List (String × Numbered))
      → any_of (λ i. not (is_settled i.status)) (map (direct_invocation python_str events) ds)
        ≡ false
      → all_of (is_accounted_in events) ds ≡ true
  unfolding invocation_of status_of
  settled-accounted events [] h = refl
  settled-accounted events ((id, (i, d)) ∷ ds) h =
      let (first, rest) = or_false _ _ h in
      rw
        (classify-accounted (get "decision" d) (is_true (get "dry_run" d)) _ _ _
          (not-false _ first))
        (settled-accounted events ds rest)

  -- The test on an event: one that is no decision passes.
  abbrev pub is_accounted_event : List Event → Event → Bool
  is_accounted_event events event =
      not (is_str "decision" (get "event_type" event))
      || is_accounted_in events (str_of python_str "event_id" event, (0, event))

  not_in :
      (id : String) (ids seen : List String)
      → ((k : String) → is_in k ids ≡ true → is_in k seen ≡ true)
      → not (is_in id seen) ≡ true
      → is_in id ids ≡ false
  not_in id ids seen sub n = elim (Bool-cases (is_in id ids)) [
    | inr m ↦ m
    | inl y ↦ absurd (cc (rw (sub id y) at n))
  ]

  in_both :
      (id : String) (ids seen : List String)
      → ((k : String) → is_in k ids ≡ true → is_in k seen ≡ true)
      → (k : String) → is_in k (id ∷ ids) ≡ true
      → is_in k (id ∷ seen) ≡ true
  in_both id ids seen sub k h = elim (Bool-cases (str_eq id k)) [
    | inl y ↦ rw y refl
    | inr n ↦ rw n (sub k (rw n at h))
  ]

  in_more :
      (id : String) (ids seen : List String)
      → ((k : String) → is_in k ids ≡ true → is_in k seen ≡ true)
      → (k : String) → is_in k ids ≡ true
      → is_in k (id ∷ seen) ≡ true
  in_more id ids seen sub k h = elim (Bool-cases (str_eq id k)) [
    | inl y ↦ rw y refl
    | inr n ↦ rw n (sub k h)
  ]

  -- With different ids every decision is the first with its id.
  every_decision :
      (all : List Event) (ids seen : List String) (i : ℕ) (events : List Event)
      → ((k : String) → is_in k ids ≡ true → is_in k seen ≡ true)
      → fresh_ids python_str seen events ≡ true
      → all_of (is_accounted_in all) (first_decisions python_str ids i events) ≡ true
      → all_of (is_accounted_event all) events ≡ true
  unfolding first_decisions
  every_decision all ids seen i [] sub f h = refl
  every_decision all ids seen i (event ∷ events) sub f h =
      let id = str_of python_str "event_id" event in
      let (new, rest) =
        and_true (not (is_in id seen)) (fresh_ids python_str (id ∷ seen) events) f in
      elim (Bool-cases (is_str "decision" (get "event_type" event))) [
        | inr n ↦ rw n (
            every_decision all ids (id ∷ seen) (suc i) events (in_more id ids seen sub) rest
              (rw n at h))
        | inl y ↦
            let fresh = not_in id ids seen sub new in
            let (here, later) =
              and_true (is_accounted_in all (id, (i, event))) _ (rw (y, fresh) at h) in
            rw y (
              rw here (
                every_decision all (id ∷ ids) (id ∷ seen) (suc i) events (in_both id ids seen sub)
                  rest later))
      ]

  report_is_settled :
      (events : List Event)
      → let report = report_of python_str (index_from python_str 0 events empty_index) in
        has_unsettled report ≡ false
        → has_duplicate report ≡ false
        → all_of (is_accounted_event events) events ≡ true
  unfolding has_unsettled
  report_is_settled events h u =
      every_decision events [] [] 0 events (λ k e. e) (report_of-fresh python_str events u)
        (settled-accounted events (first_decisions python_str [] 0 events) (
          subst (λ l. any_of (λ i. not (is_settled i.status)) l ≡ false)
            (report_of-invocations python_str events) h))

  -- If the report on a valid snapshot has no invocation that needs reconciliation, and says of no
  -- event id that it is not unique, then every decision of the snapshot that allowed an action, and
  -- was not a dry run, has one outcome and that is a success, or its last resolution confirms that
  -- it was completed or was not.
  pub nothing_is_lost :
      (verification : VerificationResult) (events : List Event) (report : AuditReport)
      → audit_verified_snapshot python_str verification events ≡ some report
      → has_unsettled report ≡ false
      → has_duplicate report ≡ false
      → all_of (is_accounted_event events) events ≡ true
  unfolding audit_verified_snapshot
  nothing_is_lost verification events report e h u = elim (Bool-cases verification.valid) [
    | inr n ↦ absurd (cc (rw (n, audit_verified_snapshot) at e))
    | inl y ↦
        let same = some_inj _ report (rw (y, audit_verified_snapshot) at e) in
        report_is_settled events (ap has_unsettled same ∙ h) (ap has_duplicate same ∙ u)
  ]
