-- ===== src/Policy/StateFile.antt =====
-- The durable state of the file providers of src/tesera/policy.py: `_read_json_state`,
-- `_atomic_write_json`, and the locked region of their `decide` methods. A dict that is written is
-- kept in insertion order: `sort_keys` changes the order only, and no reader looks at it.
pub mod Counts
pub mod Refines
use tesera.Common.{Bool, Option, none, some, String, if◌then◌else◌}
use tesera.Json.{Json, Fields, find, as_obj, obj}
use tesera.Policy.{ApprovalDecision, deny, state_corrupt, state_unavailable}

-- What the file at `state_path` holds: nothing, white space, bytes that are no JSON text, or a
-- JSON document.
pub data StateFile : Type 0 where
  missing blank garbled : StateFile
  holds : Json → StateFile

-- Whether the operating system lets one call open its files, and write the new state.
pub record FileSystem : Type 0 where
  pub opens : Bool
  pub writes : Bool

-- What `_read_json_state` returns, or its PolicyError.
pub data ReadState : Type 0 where
  corrupt_file : ReadState
  no_state : ReadState
  state : Fields → ReadState

-- `_read_json_state`
unfoldable pub read_json_state : StateFile → ReadState
unfolding as_obj
read_json_state missing = no_state
read_json_state blank = no_state
read_json_state garbled = corrupt_file
read_json_state (holds v) = elim (as_obj v) [ none ↦ corrupt_file | some s ↦ state s ]

-- What the locked region does with a state that it has read: raise PolicyError, return a decision,
-- or write a state and return a decision.
pub data Action : Type 0 where
  raise_corrupt : Action
  answer : ApprovalDecision → Action
  write : Fields → ApprovalDecision → Action

-- `state.get(k, default)`
unfoldable pub get_default : Json → String → Fields → Json
unfolding find
get_default z k s = elim (find k s) [ none ↦ z | some v ↦ v ]

-- The end of the region, with the two `except` clauses.
unfoldable pub finish : FileSystem → StateFile → Action → ApprovalDecision × StateFile
finish fs file raise_corrupt = (deny state_corrupt, file)
finish fs file (answer d) = (d, file)
finish fs file (write s d) =
    if fs.writes then (d, holds (obj s)) else (deny state_unavailable, file)

-- The region, from the state that `_read_json_state` returns.
unfoldable pub after_read :
    FileSystem → StateFile → (Option Fields → Action) → ReadState → ApprovalDecision × StateFile
unfolding finish
after_read fs file region corrupt_file = (deny state_corrupt, file)
after_read fs file region no_state = finish fs file (region none)
after_read fs file region (state s) = finish fs file (region (some s))

-- The whole locked region of a `decide`.
unfoldable pub locked :
    FileSystem → StateFile → (Option Fields → Action) → ApprovalDecision × StateFile
unfolding after_read read_json_state
locked fs file region =
    if fs.opens
    then after_read fs file region (read_json_state file)
    else (deny state_unavailable, file)
