-- ===== src/Journal/Idem/Query.antt =====
-- The queries of src/tesera/journal.py over the tables of the index and over a full scan.
use tesera.Common.{
  Bool, true, false, Option, none, some, List, [], ◌∷◌, String, ◌&&◌, ◌||◌, not, any_of,
  if◌then◌else◌,
}
use tesera.Common.Dict.{Dict, lookup, get_or}
use tesera.Json.{Event, get, as_str, is_str, is_true}
use tesera.Journal.Idem.{IdemTables, empty_scan, ids_of, scan}

-- `outcome.get("status") == "succeeded"`
unfoldable pub has_succeeded : Event → Bool
has_succeeded outcome = is_str "succeeded" (get "status" outcome)

-- Whether the last resolution of a list says that the side effect did not happen: the entry of
-- `resolved_clear`, false where there is none.
unfoldable pub is_cleared : List Event → Bool
is_cleared [] = false
is_cleared (r ∷ []) = is_str "confirmed_not_completed" (get "resolution" r)
is_cleared (r ∷ q ∷ rest) = is_cleared (q ∷ rest)

-- The test by which the loop passes a decision over.
unfoldable pub is_candidate : String → String → Event → Bool
is_candidate action key event =
    is_str "allowed" (get "decision" event)
    && (is_str action (get "action_name" event)
        && (is_str key (get "idempotency_key" event) && not (is_true (get "dry_run" event))))

abbrev pub is_empty {ℓ} : {A : Type ℓ} → List A → Bool
is_empty [] = true
is_empty (_ ∷ _) = false

-- Whether a candidate blocks: it has a succeeded outcome, or no outcome and no resolution that
-- releases it.
unfoldable pub is_blocking : List Event → List Event → Bool
unfolding has_succeeded is_cleared
is_blocking outcomes resolutions =
    any_of has_succeeded outcomes || (is_empty outcomes && not (is_cleared resolutions))

-- `_blocking_prior_from_state`
unfoldable pub blocking_prior :
    Dict (List Event) → Dict (List Event) → String → String → Dict Event → Option Event
unfolding is_candidate is_blocking get_or
blocking_prior outcomes resolutions action key [] = none
blocking_prior outcomes resolutions action key ((id, event) ∷ decisions) =
    if is_candidate action key event
      && is_blocking (get_or [] id outcomes) (get_or [] id resolutions)
    then some event
    else blocking_prior outcomes resolutions action key decisions

-- `prior.get("event_id")`, if it is a text.
abbrev pub prior_id : Option Event → Option String
prior_id none = none
prior_id (some event) = as_str (get "event_id" event)

-- `_scan_blocking_idempotent` over the events of the lines that parse.
unfoldable pub scan_blocking : String → String → List Event → Option String
unfolding blocking_prior
scan_blocking action key events =
    let s = scan empty_scan events in
    prior_id (blocking_prior s.outcomes s.resolutions action key s.decisions)

-- The dict of the candidates: none is the KeyError of an id that is not in the tables.
unfoldable pub pick : Dict Event → List String → Option (Dict Event)
pick decisions [] = some []
pick decisions (id ∷ ids) = elim (lookup id decisions) [
  | none ↦ none
  | some event ↦ elim (pick decisions ids) [ none ↦ none | some rest ↦ some ((id, event) ∷ rest) ]
]

-- `_indexed_blocking_prior`, and the id that `_locked_blocking_prior_id` reads from it. The outer
-- none is the KeyError.
unfoldable pub indexed_blocking : String → String → IdemTables → Option (Option String)
unfolding pick blocking_prior ids_of
indexed_blocking action key t = elim (pick t.decisions (ids_of (action, key) t.by_key)) [
  | none ↦ none
  | some candidates ↦
      some (prior_id (blocking_prior t.outcomes t.resolutions action key candidates))
]
