-- ===== src/Audit/StreamedIssues.antt =====
-- The issues of the audit on the outcomes and on the resolutions, from projected events.
use tesera.Common.{
  ℕ, ◌≡◌, refl, inl, inr, not, Option-cases, List, [], ◌∷◌, String, map, str_eq, any_of,
}
use tesera.Common.Dict.{Dict, lookup, map_values, lookup-map_values}
use tesera.Json.{Json}
use tesera.Audit.{
  Numbered, AuditIssue, str_of, issue, orphan_resolution, orphan_outcome, has_conflict,
  early_resolutions, resolution_issues, linked_issues, all_linked_issues, outcome_issues, is_many,
}
use tesera.Audit.Report.{all_resolution_issues, all_outcome_issues}
use tesera.Audit.Projected.{get-projected, str_of-projected, projected}

module _ (python_str : Json → String) where
  conflict_from :
      (first : String) (rest : List Numbered)
      → any_of (λ r. not (str_eq (str_of python_str "resolution" r.1) first)) (map projected rest)
        ≡ any_of (λ r. not (str_eq (str_of python_str "resolution" r.1) first)) rest
  conflict_from first [] = refl
  conflict_from first ((i, r) ∷ rest) =
      rw (str_of-projected python_str "resolution" r refl, conflict_from first rest) refl

  has_conflict-projected :
      (l : List Numbered) → has_conflict python_str (map projected l) ≡ has_conflict python_str l
  unfolding has_conflict
  has_conflict-projected [] = refl
  has_conflict-projected ((i, r) ∷ rest) =
      rw (str_of-projected python_str "resolution" r refl)
        (conflict_from (str_of python_str "resolution" r) rest)

  early-projected :
      (n : ℕ) (l : List Numbered)
      → early_resolutions python_str n (map projected l) ≡ early_resolutions python_str n l
  unfolding early_resolutions
  early-projected n [] = refl
  early-projected n ((i, r) ∷ rest) =
      rw (str_of-projected python_str "event_id" r refl, early-projected n rest) refl

  orphans-projected :
      (f : String → AuditIssue) (l : List Numbered)
      → map (λ r. f (str_of python_str "event_id" r.1)) (map projected l)
        ≡ map (λ r. f (str_of python_str "event_id" r.1)) l
  orphans-projected f [] = refl
  orphans-projected f ((i, r) ∷ rest) =
      rw (str_of-projected python_str "event_id" r refl, orphans-projected f rest) refl

  resolution_issues-projected :
      (ds : Dict Numbered) (id : String) (l : List Numbered)
      → resolution_issues python_str (map_values projected ds) (id, map projected l)
        ≡ resolution_issues python_str ds (id, l)
  unfolding resolution_issues
  resolution_issues-projected ds id l = elim (Option-cases (lookup id ds)) [
    | inl e ↦
        rw (resolution_issues, lookup-map_values projected id ds, e)
          (orphans-projected (λ s. issue (orphan_resolution id) s) l)
    | inr (d, e) ↦
        rw
          (
            resolution_issues,
            lookup-map_values projected id ds,
            e,
            has_conflict-projected l,
            early-projected d.0 l,
          )
          refl
  ]

  linked_issues-projected :
      (d o : Numbered)
      → linked_issues python_str (projected d) (projected o) ≡ linked_issues python_str d o
  unfolding linked_issues
  linked_issues-projected (i, d) (j, o) =
      rw
        (
          str_of-projected python_str "event_id" o refl,
          get-projected "decision" d refl,
          get-projected "action_id" d refl,
          get-projected "action_name" d refl,
          get-projected "contract_hash" d refl,
          get-projected "action_id" o refl,
          get-projected "action_name" o refl,
          get-projected "contract_hash" o refl,
          get-projected "status" o refl,
        )
        refl

  all_linked-projected :
      (d : Numbered) (l : List Numbered)
      → all_linked_issues python_str (projected d) (map projected l)
        ≡ all_linked_issues python_str d l
  unfolding all_linked_issues
  all_linked-projected d [] = refl
  all_linked-projected d (o ∷ rest) =
      rw (linked_issues-projected d o, all_linked-projected d rest) refl

  is_many-projected : (l : List Numbered) → is_many (map projected l) ≡ is_many l
  is_many-projected [] = refl
  is_many-projected (_ ∷ []) = refl
  is_many-projected (_ ∷ _ ∷ _) = refl

  outcome_issues-projected :
      (ds : Dict Numbered) (id : String) (l : List Numbered)
      → outcome_issues python_str (map_values projected ds) (id, map projected l)
        ≡ outcome_issues python_str ds (id, l)
  unfolding outcome_issues
  outcome_issues-projected ds id l = elim (Option-cases (lookup id ds)) [
    | inl e ↦
        rw (outcome_issues, lookup-map_values projected id ds, e)
          (orphans-projected (λ s. issue (orphan_outcome id) s) l)
    | inr (d, e) ↦
        rw
          (
            outcome_issues,
            lookup-map_values projected id ds,
            e,
            is_many-projected l,
            all_linked-projected d l,
          )
          refl
  ]

  pub all_resolutions-projected :
      (ds : Dict Numbered) (rs : Dict (List Numbered))
      → all_resolution_issues python_str (map_values projected ds) (map_values (map projected) rs)
        ≡ all_resolution_issues python_str ds rs
  unfolding all_resolution_issues map_values
  all_resolutions-projected ds [] = refl
  all_resolutions-projected ds ((id, l) ∷ rs) =
      rw (resolution_issues-projected ds id l, all_resolutions-projected ds rs) refl

  pub all_outcomes-projected :
      (ds : Dict Numbered) (os : Dict (List Numbered))
      → all_outcome_issues python_str (map_values projected ds) (map_values (map projected) os)
        ≡ all_outcome_issues python_str ds os
  unfolding all_outcome_issues map_values
  all_outcomes-projected ds [] = refl
  all_outcomes-projected ds ((id, l) ∷ os) =
      rw (outcome_issues-projected ds id l, all_outcomes-projected ds os) refl
