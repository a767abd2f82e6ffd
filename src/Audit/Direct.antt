-- ===== src/Audit/Direct.antt =====
-- The invocations of a report against a direct reading of the events: one for each decision id, with
-- the outcomes and the resolutions that refer to it.
use tesera.Common.{
  ℕ, suc, ◌≡◌, refl, sym, ap, ◌∙◌, inl, inr, true, false, some, Bool-cases, List, [], ◌∷◌, ◌++◌,
  String, map, str_eq, if◌then◌else◌,
}
use tesera.Common.Dict.{Dict, get_or, contains, insert_fresh, contains-insert}
use tesera.Json.{Json, Event, get, is_str}
use tesera.Verification.Journal.{VerificationResult}
use tesera.Audit.{
  Numbered, Index, is_in, str_of, index_from, index_event, file_event, set_default, empty_index,
  AuditedInvocation, AuditReport,
}
use tesera.Audit.Report.{
  invocation_of, status_of, only, audit_decisions, audit_verified_snapshot, report_of, Marker,
  check_marker, marker_for,
}
use tesera.Audit.Linked.{
  append_nil, append_assoc, linked_in, index_from-outcomes, index_from-resolutions,
}

some_inj {ℓ} : {A : Type ℓ} (a b : A) → some a ≡ some b → a ≡ b
some_inj a b e = cc e

ap2 {ℓ κ μ} :
    {A : Type ℓ} {B : Type κ} {C : Type μ} (f : A → B → C) {a b : A} {c d : B}
    → a ≡ b
    → c ≡ d
    → f a c ≡ f b d
ap2 f h k = λ i. f (h i) (k i)

contains_nil : (k : String) → contains {V = Numbered} k [] ≡ false
unfolding contains
contains_nil k = refl

no_more : (id : String) (l : List Numbered) → get_or [] id [] ++ l ≡ l
unfolding get_or
no_more id l = refl

-- A map with the keys `ids`.
abbrev HasKeys : Dict Numbered → List String → Type 0
HasKeys d ids = (k : String) → contains k d ≡ is_in k ids

module _ (python_str : Json → String) where
  -- The decisions, each id once, the first one with it.
  unfoldable pub first_decisions : List String → ℕ → List Event → Dict Numbered
  first_decisions ids i [] = []
  first_decisions ids i (event ∷ events) =
      let id = str_of python_str "event_id" event in
      let rest = first_decisions ids (suc i) events in
      let later = first_decisions (id ∷ ids) (suc i) events in
      if is_str "decision" (get "event_type" event)
      then if is_in id ids then rest else (id, (i, event)) ∷ later
      else rest

  -- A new decision goes to the end, and its id is new.
  set_default_fresh :
      (k : String) (x : Numbered) (d : Dict Numbered)
      → contains k d ≡ false
      → set_default k x d ≡ d ++ (k, x) ∷ []
  unfolding set_default
  set_default_fresh k x d h = rw h (insert_fresh k x d h)

  set_default_known :
      (k : String) (x : Numbered) (d : Dict Numbered) → contains k d ≡ true → set_default k x d ≡ d
  unfolding set_default
  set_default_known k x d h = rw h refl

  index_event-decisions :
      (i : ℕ) (event : Event) (ix : Index)
      → (index_event python_str (i, event) ix).decisions ≡ (
          if is_str "decision" (get "event_type" event)
          then set_default (str_of python_str "event_id" event) (i, event) ix.decisions
          else ix.decisions)
  unfolding index_event file_event
  index_event-decisions i event ix =
      let t = get "event_type" event in
      elim (Bool-cases (is_str "decision" t)) [
        | inl d ↦ rw d refl
        | inr nd ↦ elim (Bool-cases (is_str "outcome" t)) [
          | inl o ↦ rw (nd, o) refl
          | inr m ↦ elim (Bool-cases (is_str "resolution" t)) [
            | inl r ↦ rw (nd, m, r) refl
            | inr nr ↦ rw (nd, m, nr) refl
          ]
        ]
      ]

  decisions-decision :
      (i : ℕ) (event : Event) (ix : Index)
      → is_str "decision" (get "event_type" event) ≡ true
      → (index_event python_str (i, event) ix).decisions
        ≡ set_default (str_of python_str "event_id" event) (i, event) ix.decisions
  decisions-decision i event ix y = index_event-decisions i event ix ∙ rw y refl

  decisions-other :
      (i : ℕ) (event : Event) (ix : Index)
      → is_str "decision" (get "event_type" event) ≡ false
      → (index_event python_str (i, event) ix).decisions ≡ ix.decisions
  decisions-other i event ix n = index_event-decisions i event ix ∙ rw n refl

  HasKeys-fresh :
      (k : String) (x : Numbered) (d : Dict Numbered) (ids : List String)
      → HasKeys d ids
      → contains k d ≡ false
      → HasKeys (d ++ (k, x) ∷ []) (k ∷ ids)
  HasKeys-fresh k x d ids h n j =
      ap (contains j) (sym (insert_fresh k x d n))
      ∙ rw (contains-insert k j x d)
          (elim (Bool-cases (str_eq k j)) [ inl y ↦ rw y refl | inr m ↦ rw m (h j) ])

  -- The decisions stay, or one more goes to their end; then what follows is as for them.
  decisions_stay :
      (now before : Dict Numbered) (ids : List String)
      → now ≡ before
      → HasKeys before ids
      → HasKeys now ids
  decisions_stay now before ids e h k = ap (contains k) e ∙ h k

  index_from-decisions :
      (i : ℕ) (events : List Event) (ix : Index) (ids : List String)
      → HasKeys ix.decisions ids
      → (index_from python_str i events ix).decisions ≡ ix.decisions ++ first_decisions ids i events
  unfolding index_from first_decisions
  index_from-decisions i [] ix ids h = sym (append_nil _)
  index_from-decisions i (event ∷ events) ix ids h =
      let id = str_of python_str "event_id" event in
      let x : Numbered = (i, event) in
      let next = index_event python_str x ix in
      let stays = λ (e : next.decisions ≡ ix.decisions).
        index_from-decisions (suc i) events next ids (decisions_stay _ _ ids e h)
        ∙ ap (λ l. l ++ first_decisions ids (suc i) events) e in
      elim (Bool-cases (is_str "decision" (get "event_type" event))) [
        | inr n ↦ rw n (stays (decisions-other i event ix n))
        | inl y ↦ elim (Bool-cases (is_in id ids)) [
          | inl old ↦
              rw (y, old)
                (stays (decisions-decision i event ix y ∙ set_default_known id x _ (h id ∙ old)))
          | inr new ↦
              let fresh = h id ∙ new in
              let e = decisions-decision i event ix y ∙ set_default_fresh id x ix.decisions fresh in
              rw (y, new)
                (index_from-decisions (suc i) events next (id ∷ ids)
                    (decisions_stay _ _ (id ∷ ids) e (HasKeys-fresh id x _ ids h fresh))
                  ∙ ap (λ l. l ++ first_decisions (id ∷ ids) (suc i) events) e
                  ∙ append_assoc ix.decisions _ _)
        ]
      ]

  -- The invocation of a decision, from the linked events.
  abbrev invocation_with : List Numbered → List Numbered → String × Numbered → AuditedInvocation
  invocation_with outcomes resolutions (id, (i, decision)) =
      invocation_of python_str id decision (only outcomes)
        (status_of python_str decision outcomes resolutions).0

  audit_decisions-invocations :
      (outcomes resolutions : Dict (List Numbered)) (decisions : Dict Numbered) (seen : List Marker)
      → (audit_decisions python_str outcomes resolutions decisions seen).0
        ≡ map
            (λ d. invocation_with (get_or [] d.0 outcomes) (get_or [] d.0 resolutions) d)
            decisions
  unfolding audit_decisions
  audit_decisions-invocations outcomes resolutions [] seen = refl
  audit_decisions-invocations outcomes resolutions ((id, (i, d)) ∷ ds) seen =
      let linked = get_or [] id outcomes in
      let status = (status_of python_str d linked (get_or [] id resolutions)).0 in
      ap (λ l. invocation_of python_str id d (only linked) status ∷ l)
        (audit_decisions-invocations outcomes resolutions ds
          (check_marker id (marker_for python_str d status) seen).1)

  -- The invocation of a decision, read from the events.
  abbrev pub direct_invocation : List Event → String × Numbered → AuditedInvocation
  direct_invocation events d =
      invocation_with (linked_in python_str "outcome" d.0 0 events)
        (linked_in python_str "resolution" d.0 0 events) d

  map_same {ℓ κ} :
      {A : Type ℓ} {B : Type κ} (f g : A → B) (xs : List A)
      → ((x : A) → f x ≡ g x)
      → map f xs ≡ map g xs
  map_same f g [] h = refl
  map_same f g (x ∷ xs) h = rw (h x) (ap (λ l. g x ∷ l) (map_same f g xs h))

  pub report_of-invocations :
      (events : List Event)
      → (report_of python_str (index_from python_str 0 events empty_index)).invocations
        ≡ map (direct_invocation events) (first_decisions [] 0 events)
  unfolding report_of
  report_of-invocations events =
      let ix = index_from python_str 0 events empty_index in
      audit_decisions-invocations ix.outcomes ix.resolutions ix.decisions []
      ∙ ap (map (λ d. invocation_with (get_or [] d.0 ix.outcomes) (get_or [] d.0 ix.resolutions) d))
          (index_from-decisions 0 events empty_index [] (λ k. contains_nil k))
      ∙ map_same _ (direct_invocation events) (first_decisions [] 0 events) (λ d.
        ap2 (λ o r. invocation_with o r d)
          (index_from-outcomes python_str d.0 0 events empty_index ∙ no_more d.0 _)
          (index_from-resolutions python_str d.0 0 events empty_index ∙ no_more d.0 _))

  -- The report on a valid snapshot has exactly one invocation for each decision id, in the order
  -- in which the first decision with it appears, and its status and its outcome are those of all
  -- outcome and resolution events of the snapshot that refer to that id, wherever they stand.
  pub audit_invocations :
      (verification : VerificationResult) (events : List Event) (report : AuditReport)
      → audit_verified_snapshot python_str verification events ≡ some report
      → report.invocations ≡ map (direct_invocation events) (first_decisions [] 0 events)
  unfolding audit_verified_snapshot report_of
  audit_invocations verification events report e = elim (Bool-cases verification.valid) [
    | inl y ↦
        sym (ap (λ r. r.invocations) (some_inj _ _ ((rw (y, audit_verified_snapshot) at e))))
        ∙ report_of-invocations events
    | inr n ↦ absurd (cc (rw (n, audit_verified_snapshot) at e))
  ]
