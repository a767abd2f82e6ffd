-- ===== src/Journal/Idem/Decisions.antt =====
-- A decision event keeps the index in step with the full scan.
use tesera.Common.{
  true, false, Option, none, some, List, [], ◌∷◌, ◌++◌, String, ◌≡◌, refl, ap, sym, ◌∙◌, arith,
  Bool-cases, inl, inr, filter_if, filter_if-append, All-append,
}
use mathlib.Core.List.{append-nil}
use tesera.Common.{◌⊎◌}
use tesera.Common.Dict.{Dict, insert, contains, insert_fresh, lookup-append_fresh, contains-insert}
use tesera.Json.{Event, get, as_str, is_str}
use tesera.Journal.Idem.{
  IdemTables, ScanState, key_eq, ids_of, is_tracked, evolve_decision, store_decision, scan_decision,
}
use tesera.Journal.Idem.Query.{pick}
use tesera.Journal.Idem.Facts.{ids_of-add_id, pick-append, pick-snoc}
use tesera.Journal.Idem.Simulation.{
  Simulates, is_known, tracked, is_keyed, SameTexts, Unrecorded, contains-filter, Unrecorded-insert,
}

filter_insert :
    (id : String) (event : Event) (d : Dict Event)
    → contains id d ≡ false
    → is_tracked event ≡ true
    → filter_if tracked (insert id event d) ≡ filter_if tracked d ++ (id, event) ∷ []
filter_insert id event d c n = rw (insert_fresh id event d c) (rw filter_if-append (rw n))

filter_insert_untracked :
    (id : String) (event : Event) (d : Dict Event)
    → contains id d ≡ false
    → is_tracked event ≡ false
    → filter_if tracked (insert id event d) ≡ filter_if tracked d
filter_insert_untracked id event d c n =
    rw (insert_fresh id event d c) (rw filter_if-append (rw n (append-nil _)))

-- A decision that the index leaves aside.
pub decision_untracked :
    (ids : List String) (s : ScanState) (t : IdemTables) (event : Event) (id : String)
    → Simulates ids s t
    → is_known id ids ≡ false
    → is_tracked event ≡ false
    → Simulates (id ∷ ids) (scan_decision s event (some id)) t
unfolding scan_decision
decision_untracked ids s t event id m fresh n =
    let c = m.known id ∙ fresh in
    rw c (record {
      known = λ j. ground (arith, contains-insert id j event s.decisions, m.known j);
      same_decisions = m.same_decisions ∙ sym (filter_insert_untracked id event s.decisions c n);
      candidates = m.candidates;
      same_outcomes = m.same_outcomes;
      same_resolutions = m.same_resolutions;
      scan_outcomes = Unrecorded-insert id event s.decisions s.outcomes m.scan_outcomes;
      scan_resolutions = Unrecorded-insert id event s.decisions s.resolutions m.scan_resolutions;
      index_outcomes = Unrecorded-insert id event s.decisions t.outcomes m.index_outcomes;
      index_resolutions = Unrecorded-insert id event s.decisions t.resolutions m.index_resolutions;
    })

keyed_both :
    (action key a k id : String) (event : Event)
    → as_str (get "action_name" event) ≡ some a
    → as_str (get "idempotency_key" event) ≡ some k
    → is_keyed action key (id, event) ≡ key_eq (a, k) (action, key)
unfolding is_str
keyed_both action key a k id event e f = ground arith

keyed_none :
    (action key id : String) (event : Event)
    → ((as_str (get "action_name" event) ≡ none) ⊎ (as_str (get "idempotency_key" event) ≡ none))
    → is_keyed action key (id, event) ≡ false
unfolding is_str
keyed_none action key id event (inl e) = ground arith
keyed_none action key id event (inr f) = ground arith

-- The candidates after a decision joins the tables.
store_candidates :
    (t : IdemTables) (id : String) (event : Event) (a k : Option String) (action key : String)
    → as_str (get "action_name" event) ≡ a
    → as_str (get "idempotency_key" event) ≡ k
    → contains id t.decisions ≡ false
    → pick t.decisions (ids_of (action, key) t.by_key)
      ≡ some (filter_if (is_keyed action key) t.decisions)
    → pick
        (t.decisions ++ (id, event) ∷ [])
        (ids_of (action, key) (store_decision t id event a k).by_key)
      ≡ some (filter_if (is_keyed action key) (t.decisions ++ (id, event) ∷ []))
unfolding store_decision
store_candidates t id event (some a) (some k) action key e f c h =
    let fresh = lookup-append_fresh id event t.decisions c in
    let old = pick-append t.decisions ((id, event) ∷ []) (ids_of (action, key) t.by_key) h in
    elim (Bool-cases (key_eq (a, k) (action, key))) [
      | inl y ↦
          rw (ids_of-add_id (action, key) (a, k) id t.by_key, y, filter_if-append)
            (rw (keyed_both action key a k id event e f, y)
              (pick-snoc _ (ids_of (action, key) t.by_key) id event old fresh))
      | inr n ↦
          rw (ids_of-add_id (action, key) (a, k) id t.by_key, n, filter_if-append)
            (rw (keyed_both action key a k id event e f, n) (rw append-nil old))
    ]
store_candidates t id event none k action key e f c h =
    rw (filter_if-append, keyed_none action key id event (inl e), append-nil)
      (pick-append t.decisions ((id, event) ∷ []) (ids_of (action, key) t.by_key) h)
store_candidates t id event (some a) none action key e f c h =
    rw (filter_if-append, keyed_none action key id event (inr f), append-nil)
      (pick-append t.decisions ((id, event) ∷ []) (ids_of (action, key) t.by_key) h)

store_fields :
    (t : IdemTables) (id : String) (event : Event) (a k : Option String)
    → let t' = store_decision t id event a k in
      (t'.decisions ≡ insert id event t.decisions)
      × (t'.outcomes ≡ t.outcomes)
      × (t'.resolutions ≡ t.resolutions)
unfolding store_decision
store_fields t id event (some a) (some k) = (refl, refl, refl)
store_fields t id event none k = (refl, refl, refl)
store_fields t id event (some a) none = (refl, refl, refl)

Unrecorded-texts :
    (name id : String) (decisions : Dict Event) (c d : Dict (List Event)) (event : Event)
    → contains id decisions ≡ false
    → Unrecorded decisions c
    → Unrecorded decisions d
    → SameTexts name c d (id, event)
Unrecorded-texts name id decisions c d event n h k = rw (h id n, k id n)

-- A decision that the index tracks.
pub decision_tracked :
    (ids : List String) (s : ScanState) (t : IdemTables) (event : Event) (id : String)
    → Simulates ids s t
    → is_known id ids ≡ false
    → is_tracked event ≡ true
    → Simulates (id ∷ ids) (scan_decision s event (some id)) (evolve_decision t event (some id))
unfolding scan_decision evolve_decision
decision_tracked ids s t event id m fresh n =
    let c = m.known id ∙ fresh in
    let c' : contains id t.decisions ≡ false =
      rw m.same_decisions (contains-filter id tracked s.decisions c) in
    let a = as_str (get "action_name" event) in
    let k = as_str (get "idempotency_key" event) in
    let (d, o, r) = store_fields t id event a k in
    let grown = d ∙ insert_fresh id event t.decisions c' in
    rw (c, c')
      (record {
        known = λ j. ground (arith, contains-insert id j event s.decisions, m.known j);
        same_decisions =
            grown
            ∙ ap (λ l. l ++ (id, event) ∷ []) m.same_decisions
            ∙ sym (filter_insert id event s.decisions c n);
        candidates = λ action key.
            rw grown
              (store_candidates t id event a k action key refl refl c' (m.candidates action key));
        same_outcomes =
            rw (grown, o)
              (All-append _ t.decisions _ m.same_outcomes (
                Unrecorded-texts "status" id s.decisions s.outcomes t.outcomes event c
                    m.scan_outcomes m.index_outcomes,
                tt,
              ));
        same_resolutions =
            rw (grown, r)
              (All-append _ t.decisions _ m.same_resolutions (
                Unrecorded-texts "resolution" id s.decisions s.resolutions t.resolutions event c
                    m.scan_resolutions m.index_resolutions,
                tt,
              ));
        scan_outcomes = Unrecorded-insert id event s.decisions s.outcomes m.scan_outcomes;
        scan_resolutions = Unrecorded-insert id event s.decisions s.resolutions m.scan_resolutions;
        index_outcomes = rw o (Unrecorded-insert id event s.decisions t.outcomes m.index_outcomes);
        index_resolutions =
            rw r (Unrecorded-insert id event s.decisions t.resolutions m.index_resolutions);
      })
