-- ===== src/Journal/Append.antt =====
-- `FileJournal` of src/tesera/journal.py: each append reads the tail, builds the signed event and
-- writes it under one lock, so it is one step on the events of the file. A journal whose lines are
-- all events is the list of them.
use tesera.Common.{ℕ, Option, none, some, List, [], ◌∷◌, ◌++◌, String, length}
use tesera.Json.{Fields, Event, str, obj}
use tesera.Json.Payload.{set}
use tesera.Verification.{
  Checked, value, raises, ◌>>=◌, Crypto, key_error, type_error, journal_error,
}
use tesera.Verification.Event.{event_digest}
use tesera.Journal.Tail.{Tail, hash, corrupt, non_string, no_object, hash_of}
use tesera.Journal.Idem.{empty_tables, collect}
use tesera.Journal.Idem.Query.{indexed_blocking}

abbrev pub Journal : Type 0
Journal = List Event

-- What an append returns: the event with the journal after it, or what is raised; nothing is
-- written then.
abbrev pub Appended : Type 0
Appended = Checked (Event × Journal)

-- The tail hash of a journal of events.
unfoldable pub tail_hash : Journal → Tail
unfolding hash_of
tail_hash [] = hash none
tail_hash (event ∷ []) = hash_of (some (obj event))
tail_hash (_ ∷ event ∷ events) = tail_hash (event ∷ events)

-- A hash that `_read_last_event_hash` returns, or its JournalError.
unfoldable pub checked_tail : Tail → Checked (Option String)
checked_tail (hash h) = value h
checked_tail corrupt = raises journal_error
checked_tail non_string = raises journal_error
checked_tail no_object = raises type_error

-- `FileJournal.append_event`
unfoldable pub append_event : Journal → (Option String → Checked Event) → Appended
unfolding tail_hash checked_tail
append_event journal build = do
  previous_hash ← checked_tail (tail_hash journal)
  event ← build previous_hash
  value (event, journal ++ event ∷ [])

-- `FileJournal.append_checkpoint`, with the count of `_count_event_lines`.
unfoldable pub append_checkpoint : Journal → (ℕ → Option String → Checked Event) → Appended
unfolding tail_hash checked_tail
append_checkpoint journal build = do
  previous_hash ← checked_tail (tail_hash journal)
  event ← build (length journal) previous_hash
  value (event, journal ++ event ∷ [])

-- `_locked_blocking_prior_id`, with tables that describe the journal.
unfoldable pub locked_blocking_prior_id : Journal → String → String → Checked (Option String)
locked_blocking_prior_id journal action key =
    elim (indexed_blocking action key (collect empty_tables journal)) [
      | none ↦ raises key_error
      | some prior ↦ value prior
    ]

-- `FileJournal.append_event_atomic`, with an action and a key.
unfoldable pub append_event_atomic :
    Journal → String → String → (Option String → Option String → Checked Event) → Appended
unfolding locked_blocking_prior_id tail_hash checked_tail
append_event_atomic journal action key build = do
  blocking ← locked_blocking_prior_id journal action key
  previous_hash ← checked_tail (tail_hash journal)
  event ← build previous_hash blocking
  value (event, journal ++ event ∷ [])

-- The event of a payload with its digest and a signature of it.
abbrev pub seal : String → String → Fields → Event
seal digest signature payload =
    set "signature" (str signature) (set "event_hash" (str digest) payload)

-- `finalize_event`
unfoldable pub finalize_event : Crypto → (String → String) → Fields → Checked Event
unfolding event_digest set
finalize_event c sign payload = do
  digest ← event_digest c payload
  value (seal digest (sign digest) payload)
