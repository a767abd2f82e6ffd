-- ===== src/Engine/AtMostOnce/Live.antt =====
-- How one event of a journal changes the number of decisions that block.
use tesera.Common.{
  ◌+◌, ◌≤◌, ◌≡◌, refl, sym, ◌∙◌, subst, Bool, true, false, Option, none, some, List, [], ◌∷◌, ◌++◌,
  String, arith, if◌then◌else◌, count_if, count_if-append, Bool-cases, inl, inr, All, All-append,
  str_eq, eq_iff,
}
use tesera.Common.Dict.{Dict, get_or, contains, get_or-insert, insert_fresh}
use tesera.Json.{Event, get, as_str, is_str}
use tesera.Journal.Idem.{
  ScanState, scan, scan_event, scan_decision, scan_outcome, scan_resolution, append_to,
}
use tesera.Journal.Idem.Query.{is_candidate, is_blocking, blocking_prior, prior_id}
use tesera.Journal.Idem.Simulation.{are_linked, next_ids}
use tesera.Engine.AtMostOnce.{is_live, live, in_progress, may_block, is_quiet}

pub scan-snoc :
    (s : ScanState) (events : List Event) (event : Event)
    → scan s (events ++ event ∷ []) ≡ scan_event (scan s events) event
unfolding scan
scan-snoc s [] event = refl
scan-snoc s (e ∷ es) event = scan-snoc (scan_event s e) es event

pub are_linked-prefix :
    (ids : List String) (xs ys : List Event)
    → are_linked ids (xs ++ ys) ≡ true
    → are_linked ids xs ≡ true
unfolding are_linked
are_linked-prefix ids [] ys h = refl
are_linked-prefix ids (x ∷ xs) ys h = ground (arith, are_linked-prefix (next_ids ids x) xs ys)

-- Every decision is stored under its own id.
abbrev pub IsNamed : String × Event → Type 0
IsNamed (id, event) = as_str (get "event_id" event) ≡ some id

-- If no id comes back from the query, no decision blocks.
pub none_blocks :
    (action key : String) (s : ScanState) (d : Dict Event)
    → All IsNamed d
    → prior_id (blocking_prior s.outcomes s.resolutions action key d) ≡ none
    → count_if (is_live action key s) d ≡ 0
unfolding blocking_prior
none_blocks action key s [] named h = refl
none_blocks action key s ((id, event) ∷ d) named h =
    elim (Bool-cases (is_live action key s (id, event))) [
      | inl y ↦ absurd (cc (rw (y, blocking_prior) at h, named.0))
      | inr n ↦
          rw n (omega (arith, none_blocks action key s d named.1 (rw (n, blocking_prior) at h)))
    ]

count_if-le :
    (p q : String × Event → Bool) (d : Dict Event)
    → ((x : String × Event) → p x ≡ true → q x ≡ true)
    → count_if p d ≤ count_if q d
count_if-le p q [] h = omega arith
count_if-le p q (x ∷ d) h = elim (Bool-cases (p x)) [
  | inl y ↦ rw (y, h x y) (omega (arith, count_if-le p q d h))
  | inr n ↦ rw n (omega (arith, count_if-le p q d h))
]

live_appended :
    (action key : String) (s : ScanState) (id : String) (event : Event)
    → count_if (is_live action key s) (s.decisions ++ (id, event) ∷ [])
      ≤ live action key s + (if is_candidate action key event then 1 else 0)
live_appended action key s id event =
    let e = count_if-append (is_live action key s) s.decisions ((id, event) ∷ []) in
    ground (arith, e)

-- A decision adds at most itself, and keeps the names.
pub scan_decision-live :
    (action key : String) (s : ScanState) (event : Event) (o : Option String)
    → as_str (get "event_id" event) ≡ o
    → All IsNamed s.decisions
    → (live action key (scan_decision s event o)
        ≤ live action key s + (if is_candidate action key event then 1 else 0))
      × All IsNamed (scan_decision s event o).decisions
unfolding scan_decision
scan_decision-live action key s event none e named = (omega arith, named)
scan_decision-live action key s event (some id) e named =
    elim (Bool-cases (contains id s.decisions)) [
      | inl y ↦ rw y (omega arith, named)
      | inr n ↦
          let grown = insert_fresh id event s.decisions n in
          rw (n, grown)
            (
              live_appended action key s id event,
              All-append IsNamed s.decisions ((id, event) ∷ []) named (e, tt),
            )
    ]

still_live :
    (action key : String) (s t : ScanState) (x : String × Event)
    → (get_or [] x.0 t.outcomes ≡ get_or [] x.0 s.outcomes)
    → (get_or [] x.0 t.resolutions ≡ get_or [] x.0 s.resolutions)
    → is_live action key t x ≡ true
    → is_live action key s x ≡ true
still_live action key s t (id, event) o r h = rw (sym o, sym r) h

-- A decision in progress blocks, if it is a candidate.
was_live :
    (action key : String) (s t : ScanState) (x : String × Event)
    → in_progress (some x.0) s ≡ true
    → is_live action key t x ≡ true
    → is_live action key s x ≡ true
unfolding is_blocking
was_live action key s t (id, event) h l = ground arith

pub scan_outcome-live :
    (action key : String) (s : ScanState) (event : Event) (o : Option String)
    → in_progress o s ≡ true
    → live action key (scan_outcome s event o) ≤ live action key s
unfolding scan_outcome append_to
scan_outcome-live action key s event none h = omega arith
scan_outcome-live action key s event (some ref) h =
    count_if-le _ (is_live action key s) s.decisions (λ x l. elim (Bool-cases (str_eq ref x.0)) [
      | inl y ↦
          was_live action key s (scan_outcome s event (some ref)) x
            (subst (λ k. in_progress (some k) s ≡ true) ((eq_iff ref x.0).0 y) h) l
      | inr n ↦
          still_live action key s (scan_outcome s event (some ref)) x
            (get_or-insert [] ref x.0 _ s.outcomes ∙ rw n refl) refl l
    ])

pub scan_resolution-live :
    (action key : String) (s : ScanState) (event : Event) (o : Option String)
    → in_progress o s ≡ true
    → live action key (scan_resolution s event o) ≤ live action key s
unfolding scan_resolution append_to
scan_resolution-live action key s event none h = omega arith
scan_resolution-live action key s event (some ref) h =
    count_if-le _ (is_live action key s) s.decisions (λ x l. elim (Bool-cases (str_eq ref x.0)) [
      | inl y ↦
          was_live action key s (scan_resolution s event (some ref)) x
            (subst (λ k. in_progress (some k) s ≡ true) ((eq_iff ref x.0).0 y) h) l
      | inr n ↦
          still_live action key s (scan_resolution s event (some ref)) x refl
            (get_or-insert [] ref x.0 _ s.resolutions ∙ rw n refl) l
    ])

scan_outcome-decisions :
    (s : ScanState) (event : Event) (o : Option String)
    → (scan_outcome s event o).decisions ≡ s.decisions
unfolding scan_outcome
scan_outcome-decisions s event none = refl
scan_outcome-decisions s event (some ref) = refl

scan_resolution-decisions :
    (s : ScanState) (event : Event) (o : Option String)
    → (scan_resolution s event o).decisions ≡ s.decisions
unfolding scan_resolution
scan_resolution-decisions s event none = refl
scan_resolution-decisions s event (some ref) = refl

-- A decision that cannot block is no candidate of any query.
quiet_decision :
    (action key : String) (event : Event)
    → may_block event ≡ false
    → is_candidate action key event ≡ false
unfolding is_candidate is_str
quiet_decision action key event h = ground arith

-- A quiet event never makes more decisions block, and keeps the names.
pub quiet-live :
    (action key : String) (s : ScanState) (event : Event)
    → is_quiet s event ≡ true
    → All IsNamed s.decisions
    → (live action key (scan_event s event) ≤ live action key s)
      × All IsNamed (scan_event s event).decisions
unfolding is_quiet scan_event
quiet-live action key s event h named =
    elim (Bool-cases (is_str "decision" (get "event_type" event))) [
      | inl d ↦
          let k =
            scan_decision-live action key s event (as_str (get "event_id" event)) refl named in
          let q = quiet_decision action key event (ground arith) in
          rw d (ground (arith, k.0, q), k.1)
      | inr nd ↦ elim (Bool-cases (is_str "outcome" (get "event_type" event))) [
        | inl o ↦
            rw (nd, o)
              (
                scan_outcome-live action key s event (as_str (get "decision_event_id" event))
                    (rw (nd, o) at h),
                rw (scan_outcome-decisions s event (as_str (get "decision_event_id" event))) named,
              )
        | inr other ↦ elim (Bool-cases (is_str "resolution" (get "event_type" event))) [
          | inl r ↦
              rw (nd, other, r)
                (
                  scan_resolution-live action key s event (as_str (get "decision_event_id" event))
                      (rw (nd, other, r) at h),
                  rw (scan_resolution-decisions s event (as_str (get "decision_event_id" event)))
                      named,
                )
          | inr nr ↦ rw (nd, other, nr) (omega arith, named)
        ]
      ]
    ]
