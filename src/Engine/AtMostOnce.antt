-- ===== src/Engine/AtMostOnce.antt =====
-- The guarantee of the idempotency keys of src/tesera/engine.py: how a journal grows, by atomic
-- decisions and by the other appends, in any interleaving of processes.
pub mod Live
pub mod Bound
use tesera.Common.{
  ℕ, Bool, true, false, Option, none, some, List, [], ◌∷◌, ◌++◌, String, ◌≡◌, ◌&&◌, not,
  if◌then◌else◌, count_if,
}
use tesera.Common.Dict.{get_or}
use tesera.Json.{Event, get, as_str, is_str, is_true}
use tesera.Verification.{Crypto, value}
use tesera.Journal.Idem.{ScanState, empty_scan, scan}
use tesera.Journal.Idem.Query.{is_candidate, is_blocking, is_cleared, is_empty}
use tesera.Journal.Idem.Simulation.{are_linked, is_text}
use tesera.Journal.Append.{Journal}
use tesera.Engine.{Stamp, Call, Decision, append_decision}

-- The decision is one under the action and the key that blocks another run.
abbrev pub is_live : String → String → ScanState → String × Event → Bool
is_live action key s (id, event) =
    is_candidate action key event
    && is_blocking (get_or [] id s.outcomes) (get_or [] id s.resolutions)

-- How many decisions under the action and the key block.
abbrev pub live : String → String → ScanState → ℕ
live action key s = count_if (is_live action key s) s.decisions

-- The decision of an id, if it is one, has no outcome yet, and no resolution released its key.
abbrev pub in_progress : Option String → ScanState → Bool
in_progress none s = true
in_progress (some id) s =
    is_empty (get_or [] id s.outcomes) && not (is_cleared (get_or [] id s.resolutions))

-- The decision can block: it is allowed, has a key and is no dry run.
abbrev pub may_block : Event → Bool
may_block event =
    is_str "allowed" (get "decision" event)
    && (is_text (as_str (get "idempotency_key" event)) && not (is_true (get "dry_run" event)))

-- What is appended besides the atomic decisions: decisions that are denied, have no key or are dry
-- runs, one outcome of a decision in progress, a resolution of such a decision, and the events that
-- the check does not read.
unfoldable pub is_quiet : ScanState → Event → Bool
is_quiet s event =
    if is_str "decision" (get "event_type" event)
    then not (may_block event)
    else if is_str "outcome" (get "event_type" event)
    then in_progress (as_str (get "decision_event_id" event)) s
    else if is_str "resolution" (get "event_type" event)
    then in_progress (as_str (get "decision_event_id" event)) s
    else true

-- One append, by any process.
pub data Step (c : Crypto) : Journal → Journal → Type 0 where
  decided :
      {journal journal' : Journal} (stamp : Stamp) (call : Call) (decision : Decision)
      (key : String) (in_process : Bool) (event : Event)
      → append_decision c stamp call decision key in_process journal ≡ value (event, journal')
      → Step c journal journal'
  recorded :
      {journal : Journal} (event : Event)
      → is_quiet (scan empty_scan journal) event ≡ true
      → Step c journal (journal ++ event ∷ [])

-- The journals that grow from an empty file by such appends, with a new id for each decision and
-- outcomes and resolutions that name a decision.
pub data Reaches (c : Crypto) : Journal → Type 0 where
  start : Reaches c []
  append :
      {journal journal' : Journal}
      → Reaches c journal
      → Step c journal journal'
      → are_linked [] journal' ≡ true
      → Reaches c journal'
