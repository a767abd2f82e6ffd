-- ===== src/Audit/Projected.antt =====
-- The first loop of the audit on projected events: the index is the projection of the index.
use tesera.Common.{
  ℕ, suc, ◌≡◌, refl, sym, ap, ◌∙◌, inl, inr, true, Bool-cases, List, [], ◌∷◌, ◌++◌, String, map,
  str_eq, eq_iff,
}
use tesera.Common.Dict.{
  Dict, get_or, insert, contains, map_values, get_or-map_values, contains-map_values,
  insert-map_values,
}
use tesera.Json.{Json, Event, get, find, is_str}
use tesera.Audit.{
  Numbered, Index, is_in, str_of, index_from, index_event, file_event, append_to, set_default,
  note_id,
}
use tesera.Audit.Report.{project, project_audit_event, audit_event_fields}

-- A projected event has the same value under each name that it keeps.
get-project :
    (k : String) (ks : List String) (event : Event)
    → is_in k ks ≡ true
    → get k (project ks event) ≡ get k event
unfolding project get find
get-project k [] event h = absurd (cc h)
get-project k (j ∷ ks) event h = elim (Bool-cases (str_eq j k)) [
  | inl y ↦ rw (get, y) (ap (λ n. get n event) ((eq_iff j k).0 y))
  | inr n ↦ rw (get, n) (get-project k ks event (rw n at h))
]

pub get-projected :
    (k : String) (event : Event)
    → is_in k audit_event_fields ≡ true
    → get k (project_audit_event event) ≡ get k event
unfolding project_audit_event
get-projected k event h = get-project k audit_event_fields event h

abbrev pub projected : Numbered → Numbered
projected (i, event) = (i, project_audit_event event)

abbrev pub project_index : Index → Index
project_index ix = record {
  issues = ix.issues;
  decisions = map_values projected ix.decisions;
  outcomes = map_values (map projected) ix.outcomes;
  resolutions = map_values (map projected) ix.resolutions;
  seen_event_ids = ix.seen_event_ids;
}

set_default-projected :
    (k : String) (x : Numbered) (d : Dict Numbered)
    → set_default k (projected x) (map_values projected d)
      ≡ map_values projected (set_default k x d)
unfolding set_default
set_default-projected k x d = elim (Bool-cases (contains k d)) [
  | inl y ↦ rw (contains-map_values projected k d, y) refl
  | inr n ↦ rw (contains-map_values projected k d, n) (insert-map_values projected k x d)
]

map-append {ℓ κ} :
    {A : Type ℓ} {B : Type κ} (f : A → B) (xs ys : List A) → map f (xs ++ ys) ≡ map f xs ++ map f ys
map-append f [] ys = refl
map-append f (x ∷ xs) ys = ap (λ l. f x ∷ l) (map-append f xs ys)

append_to-projected :
    (k : String) (x : Numbered) (d : Dict (List Numbered))
    → append_to k (projected x) (map_values (map projected) d)
      ≡ map_values (map projected) (append_to k x d)
unfolding append_to
append_to-projected k x d =
    ap (λ l. insert k (l ++ projected x ∷ []) (map_values (map projected) d))
      (get_or-map_values (map projected) [] k d)
    ∙ ap (λ l. insert k l (map_values (map projected) d))
        (sym (map-append projected (get_or [] k d) (x ∷ [])))
    ∙ insert-map_values (map projected) k (get_or [] k d ++ x ∷ []) d

module _ (python_str : Json → String) where
  pub str_of-projected :
      (k : String) (event : Event)
      → is_in k audit_event_fields ≡ true
      → str_of python_str k (project_audit_event event) ≡ str_of python_str k event
  str_of-projected k event h = ap python_str (get-projected k event h)

  file_event-projected :
      (x : Numbered) (ix : Index)
      → file_event python_str (projected x) (project_index ix)
        ≡ project_index (file_event python_str x ix)
  unfolding file_event
  file_event-projected (i, event) ix =
      let t = get "event_type" event in
      let id = str_of python_str "decision_event_id" event in
      let at_decision =
        ap (λ l. record (project_index ix) { decisions = l })
          (set_default-projected (str_of python_str "event_id" event) (i, event) ix.decisions) in
      let at_outcome =
        ap (λ l. record (project_index ix) { outcomes = l })
          (append_to-projected id (i, event) ix.outcomes) in
      let at_resolution =
        ap (λ l. record (project_index ix) { resolutions = l })
          (append_to-projected id (i, event) ix.resolutions) in
      rw
        (
          get-projected "event_type" event refl,
          str_of-projected "event_id" event refl,
          str_of-projected "decision_event_id" event refl,
        )
        (elim (Bool-cases (is_str "decision" t)) [
          | inl d ↦ rw d at_decision
          | inr nd ↦ elim (Bool-cases (is_str "outcome" t)) [
            | inl o ↦ rw (nd, o) at_outcome
            | inr m ↦ elim (Bool-cases (is_str "resolution" t)) [
              | inl r ↦ rw (nd, m, r) at_resolution
              | inr nr ↦ rw (nd, m, nr) refl
            ]
          ]
        ])

  index_event-projected :
      (x : Numbered) (ix : Index)
      → index_event python_str (projected x) (project_index ix)
        ≡ project_index (index_event python_str x ix)
  unfolding index_event
  index_event-projected (i, event) ix =
      ap (λ n. file_event python_str (projected (i, event)) (note_id n (project_index ix)))
        (str_of-projected "event_id" event refl)
      ∙ file_event-projected (i, event) (note_id (str_of python_str "event_id" event) ix)

  -- The index of the projected events.
  pub index_from-projected :
      (i : ℕ) (events : List Event) (ix : Index)
      → index_from python_str i (map project_audit_event events) (project_index ix)
        ≡ project_index (index_from python_str i events ix)
  unfolding index_from
  index_from-projected i [] ix = refl
  index_from-projected i (event ∷ events) ix =
      ap (λ x. index_from python_str (suc i) (map project_audit_event events) x)
        (index_event-projected (i, event) ix)
      ∙ index_from-projected (suc i) events (index_event python_str (i, event) ix)
