-- ===== src/Resolution.antt =====
-- `resolve_journal` of src/tesera/resolve.py: an operator records what came of an allowed decision.
-- The lines of the journal are all events; a note is a text.
pub mod Recorded
mod Tests
use tesera.Common.{
  ℕ, zero, suc, Bool, true, false, not, Option, none, some, List, [], ◌∷◌, String, ◌&&◌, ◌||◌,
  length, leb, str_eq, if◌then◌else◌,
}
use Prim.Native.Char.{Char, code}
use tesera.Json.{Json, Fields, Event, str, field, end, find, get, is_str, is_true}
use tesera.Verification.{Checked, value, raises, ◌>>=◌, Crypto, Exception, key_error}
use tesera.Verification.Shape.{codes}
use tesera.Journal.Append.{Journal, Appended, append_event, finalize_event}
use tesera.Engine.{Stamp, hash_field}

pub data ResolutionError : Type 0 where
  invalid_resolution unknown_decision not_allowed was_dry_run : ResolutionError

-- What `resolve_journal` comes to: its own error, what the append raises, or a new event.
pub data Resolved : Type 0 where
  refused : ResolutionError → Resolved
  failed : Exception → Resolved
  resolved : Event → Journal → Resolved

-- `KNOWN_RESOLUTIONS`
abbrev pub is_known : String → Bool
is_known s = str_eq s "confirmed_completed" || str_eq s "confirmed_not_completed"

-- `s[:n]`
abbrev pub take_text : ℕ → String → String
take_text zero s = String.[]
take_text (suc n) String.[] = String.[]
take_text (suc n) (String.◌∷◌ c s) = String.◌∷◌ c (take_text n s)

abbrev pub append_text : String → String → String
append_text String.[] t = t
append_text (String.◌∷◌ c s) t = String.◌∷◌ c (append_text s t)

-- The cut of a note at `_MAX_NOTE_CHARS`.
unfoldable pub bounded_note : String → String
bounded_note note =
    if leb (length (codes note)) 1000 then note else append_text (take_text 999 note) "…"

abbrev pub is_decision_of : String → Event → Bool
is_decision_of id event =
    is_str "decision" (get "event_type" event) && is_str id (get "event_id" event)

-- `_find_decision`
unfoldable pub find_decision : String → Journal → Option Event
find_decision id [] = none
find_decision id (event ∷ events) =
    let rest = find_decision id events in if is_decision_of id event then some event else rest

-- `decision[k]`
abbrev pub item : String → Event → Checked Json
unfolding find
item k event = elim (find k event) [ none ↦ raises key_error | some v ↦ value v ]

abbrev pub resolution_payload :
    Stamp → Json → Json → Json → Option String → String → String → String → Fields
resolution_payload stamp action_id action_name contract_hash previous_hash id resolution note =
    field "schema_version" (str "1") (
      field "event_type" (str "resolution") (
        field "event_id" (str stamp.event_id) (
          field "action_id" action_id (
            field "action_name" action_name (
              field "contract_hash" contract_hash (
                field "timestamp_utc" (str stamp.timestamp_utc) (
                  field "key_id" (str stamp.key_id) (
                    field "previous_event_hash" (hash_field previous_hash) (
                      field "decision_event_id" (str id)
                        (field "resolution" (str resolution) (field "note" (str note) end)))))))))))

module _ (c : Crypto) (stamp : Stamp) where
  -- `build`
  unfoldable pub build_resolution : Event → String → String → String → Option String → Checked Event
  unfolding item finalize_event
  build_resolution decision id resolution note previous_hash = do
    action_id ← item "action_id" decision
    action_name ← item "action_name" decision
    contract_hash ← item "contract_hash" decision
    finalize_event c stamp.sign (
        resolution_payload stamp action_id action_name contract_hash previous_hash id resolution
          note)

  abbrev pub after_append : Appended → Resolved
  after_append (raises e) = failed e
  after_append (value (event, journal)) = resolved event journal

  -- The tests on the decision that was found, and the append.
  unfoldable pub resolve_decision : String → String → String → Journal → Option Event → Resolved
  unfolding get is_str is_true append_event build_resolution
  resolve_decision id resolution note journal none = refused unknown_decision
  resolve_decision id resolution note journal (some decision) =
      if not (is_str "allowed" (get "decision" decision))
      then refused not_allowed
      else if is_true (get "dry_run" decision)
      then refused was_dry_run
      else after_append
          (append_event journal (build_resolution decision id resolution (bounded_note note)))

  -- `resolve_journal`
  unfoldable pub resolve_journal : String → String → String → Journal → Resolved
  unfolding resolve_decision find_decision
  resolve_journal id resolution note journal =
      if is_known resolution
      then resolve_decision id resolution note journal (find_decision id journal)
      else refused invalid_resolution
