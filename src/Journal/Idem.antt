-- ===== src/Journal/Idem.antt =====
-- The idempotency index of src/tesera/journal.py and the full scan that it replaces: both answer
-- which earlier decision blocks a new execution under the same action and key.
pub mod Query
pub mod Facts
pub mod Simulation
pub mod Decisions
pub mod Links
pub mod Agree
mod Tests
use tesera.Common.{
  Bool, true, false, Option, none, some, List, [], ◌∷◌, ◌++◌, String, ◌&&◌, ◌||◌, not, any_of,
  str_eq, if◌then◌else◌,
}
use tesera.Common.Dict.{Dict, lookup, insert, contains, get_or}
use tesera.Json.{Json, Event, str, field, end, get, has, as_str, is_str, is_true}

-- The pair of an action and an idempotency key.
abbrev pub Key : Type 0
Key = String × String

abbrev pub key_eq : Key → Key → Bool
key_eq (a, k) (b, l) = str_eq a b && str_eq k l

pub record IdemTables : Type 0 where
  pub decisions : Dict Event
  pub by_key : List (Key × List String)
  pub outcomes : Dict (List Event)
  pub resolutions : Dict (List Event)

abbrev pub empty_tables : IdemTables
empty_tables = record { decisions = []; by_key = []; outcomes = []; resolutions = [] }

-- `d.setdefault(ref, []).append(event)`
unfoldable pub append_to : String → Event → Dict (List Event) → Dict (List Event)
unfolding get_or insert
append_to ref event d = insert ref (get_or [] ref d ++ event ∷ []) d

-- `by_key.get(key, ())`
unfoldable pub ids_of : Key → List (Key × List String) → List String
ids_of key [] = []
ids_of key ((j, ids) ∷ rest) = if key_eq j key then ids else ids_of key rest

-- `by_key.setdefault(key, []).append(event_id)`
unfoldable pub add_id : Key → String → List (Key × List String) → List (Key × List String)
add_id key id [] = (key, id ∷ []) ∷ []
add_id key id ((j, ids) ∷ rest) =
    if key_eq j key then (j, ids ++ id ∷ []) ∷ rest else (j, ids) ∷ add_id key id rest

-- Storing a decision: the key of a decision joins the secondary index if it is a text.
unfoldable pub store_decision :
    IdemTables → String → Event → Option String → Option String → IdemTables
unfolding insert add_id
store_decision t event_id event (some action) (some key) = record t {
  decisions = insert event_id event t.decisions;
  by_key = add_id (action, key) event_id t.by_key;
}
store_decision t event_id event _ _ = record t { decisions = insert event_id event t.decisions }

-- The test of `_evolve_idem_tables` on a decision event before its id is read.
abbrev pub is_tracked : Event → Bool
is_tracked event =
    is_str "allowed" (get "decision" event)
    && (not (is_true (get "dry_run" event))
        && (has "idempotency_key" event
            && (elim (as_str (get "action_name" event)) [ none ↦ false | some _ ↦ true ])))

pub evolve_decision : IdemTables → Event → Option String → IdemTables
unfolding store_decision contains
evolve_decision t event none = t
evolve_decision t event (some event_id) =
    if contains event_id t.decisions
    then t
    else store_decision t event_id event (as_str (get "action_name" event))
        (as_str (get "idempotency_key" event))

pub evolve_outcome : IdemTables → Option String → Option String → IdemTables
unfolding append_to contains
evolve_outcome t (some ref) (some status) =
    if contains ref t.decisions
    then record t { outcomes = append_to ref (field "status" (str status) end) t.outcomes }
    else t
evolve_outcome t _ _ = t

pub evolve_resolution : IdemTables → Option String → Option String → IdemTables
unfolding append_to contains
evolve_resolution t (some ref) (some resolution) =
    if contains ref t.decisions
    then record t {
      resolutions = append_to ref (field "resolution" (str resolution) end) t.resolutions;
    }
    else t
evolve_resolution t _ _ = t

-- `_evolve_idem_tables` on an event that is an object.
unfoldable pub evolve_idem_tables : IdemTables → Event → IdemTables
unfolding evolve_decision evolve_outcome evolve_resolution get
evolve_idem_tables t event =
    if is_str "decision" (get "event_type" event)
    then (if is_tracked event then evolve_decision t event (as_str (get "event_id" event)) else t)
    else if is_str "outcome" (get "event_type" event)
    then evolve_outcome t (as_str (get "decision_event_id" event)) (as_str (get "status" event))
    else if is_str "resolution" (get "event_type" event)
    then evolve_resolution t (as_str (get "decision_event_id" event))
        (as_str (get "resolution" event))
    else t

-- The loop of `_collect_idem_tables` over the events of the lines that parse.
unfoldable pub collect : IdemTables → List Event → IdemTables
collect t [] = t
collect t (event ∷ events) = collect (evolve_idem_tables t event) events

-- What a full scan collects.
pub record ScanState : Type 0 where
  pub decisions : Dict Event
  pub outcomes : Dict (List Event)
  pub resolutions : Dict (List Event)

abbrev pub empty_scan : ScanState
empty_scan = record { decisions = []; outcomes = []; resolutions = [] }

unfoldable pub scan_decision : ScanState → Event → Option String → ScanState
unfolding insert contains
scan_decision s event none = s
scan_decision s event (some event_id) =
    if contains event_id s.decisions
    then s
    else record s { decisions = insert event_id event s.decisions }

unfoldable pub scan_outcome : ScanState → Event → Option String → ScanState
unfolding append_to
scan_outcome s event none = s
scan_outcome s event (some ref) = record s { outcomes = append_to ref event s.outcomes }

unfoldable pub scan_resolution : ScanState → Event → Option String → ScanState
unfolding append_to
scan_resolution s event none = s
scan_resolution s event (some ref) = record s { resolutions = append_to ref event s.resolutions }

-- The body of the loop of `_scan_blocking_idempotent`, which
-- `find_blocking_idempotent_decision` repeats.
unfoldable pub scan_event : ScanState → Event → ScanState
unfolding scan_decision scan_outcome scan_resolution get
scan_event s event =
    if is_str "decision" (get "event_type" event)
    then scan_decision s event (as_str (get "event_id" event))
    else if is_str "outcome" (get "event_type" event)
    then scan_outcome s event (as_str (get "decision_event_id" event))
    else if is_str "resolution" (get "event_type" event)
    then scan_resolution s event (as_str (get "decision_event_id" event))
    else s

unfoldable pub scan : ScanState → List Event → ScanState
scan s [] = s
scan s (event ∷ events) = scan (scan_event s event) events
