-- ===== src/Verification/Journal.antt =====
-- `_read_and_verify`, `verify_journal` and `load_journal_snapshot` of src/tesera/verification.py.
use tesera.Common.{
  ℕ, ◌+◌, Bool, true, false, Option, none, some, List, [], ◌∷◌, ◌++◌, String, map, ◌||◌,
  if◌then◌else◌,
}
use tesera.Common.Dict.{Dict, insert}
use tesera.Json.{Json, Event, get, as_str, is_str}
use tesera.Verification.{
  IssueCode, VerificationIssue, Checked, value, ◌>>=◌, Crypto, Python, unreadable, malformed_json,
  malformed_event,
}
use tesera.Verification.Event.{verify_event}
use tesera.Verification.Witness.{
  Line, blank, bad_json, not_object, io_error, object, load_checkpoint_witness,
}
use tesera.Verification.Coverage.{checkpoint_coverage}

-- `VerificationResult`
pub record VerificationResult : Type 0 where
  pub valid : Bool
  pub events_verified : ℕ
  pub issues : List VerificationIssue

-- The variables of the loop.
pub record Progress : Type 0 where
  pub issues : List VerificationIssue
  pub events : List Event
  pub previous_hash : Option String
  pub events_verified : ℕ
  pub line_number : ℕ
  pub total_events : ℕ
  pub newest_checkpoint : Option Event
  pub checkpoints_by_id : Dict Event
  pub witness_found : Bool

-- The codes of one line, as issues.
abbrev pub at_line : ℕ → List IssueCode → List VerificationIssue
at_line n codes = map (λ code. record { line_number = n; code = code }) codes

abbrev pub is_empty {ℓ} : {A : Type ℓ} → List A → Bool
is_empty [] = true
is_empty (_ ∷ _) = false

-- `checkpoints_by_id[event_id] = event`, if the id is a text.
abbrev pub add_checkpoint : Option String → Event → Dict Event → Dict Event
add_checkpoint none event d = d
add_checkpoint (some id) event d = insert id event d

-- `witness_event_id is not None and event.get("event_id") == witness_event_id`
abbrev pub is_witness : Option String → Event → Bool
is_witness none event = false
is_witness (some id) event = is_str id (get "event_id" event)

-- `str(v)`
abbrev pub text_of : Python → Json → String
text_of py v = elim (as_str v) [ none ↦ py.repr v | some s ↦ s ]

-- `witness_event_id`
abbrev pub witness_id : Python → Option Event → Option String
witness_id py none = none
witness_id py (some event) = some (text_of py (get "event_id" event))

-- The rest of the loop's body on an event with its issues.
unfoldable pub advance : Option String → Event → List IssueCode → Progress → Progress
unfolding insert
advance witness event codes p =
    let is_checkpoint = is_str "checkpoint" (get "event_type" event) in
    record {
      issues = p.issues ++ at_line p.line_number codes;
      events = p.events ++ event ∷ [];
      previous_hash = as_str (get "event_hash" event);
      events_verified = if is_empty codes then p.events_verified + 1 else p.events_verified;
      line_number = p.line_number;
      total_events = p.total_events + 1;
      newest_checkpoint = if is_checkpoint then some event else p.newest_checkpoint;
      checkpoints_by_id =
          if is_checkpoint
          then add_checkpoint (as_str (get "event_id" event)) event p.checkpoints_by_id
          else p.checkpoints_by_id;
      witness_found = p.witness_found || is_witness witness event;
    }

abbrev pub count_line : Progress → Progress
count_line p = record p { line_number = p.line_number + 1 }

abbrev pub add_issue : IssueCode → Progress → Progress
add_issue code p = record p { issues = p.issues ++ at_line p.line_number (code ∷ []) }

module _ (c : Crypto) (trusted : String → Option c.PublicKey) where
  -- The body of the loop on an object, whose line is counted.
  unfoldable pub read_event : Option String → Event → Progress → Checked Progress
  unfolding advance
  read_event witness event p = do
    codes ← verify_event c trusted p.previous_hash p.checkpoints_by_id event
    value (advance witness event codes p)

  -- The loop over the lines. It stops at a line that does not parse.
  unfoldable pub read_lines : Option String → List Line → Progress → Checked Progress
  read_lines witness [] p = value p
  read_lines witness (blank ∷ lines) p = read_lines witness lines (count_line p)
  read_lines witness (bad_json ∷ lines) p = value (add_issue malformed_json (count_line p))
  read_lines witness (not_object ∷ lines) p = value (add_issue malformed_event (count_line p))
  read_lines witness (io_error ∷ lines) p = value (add_issue unreadable p)
  read_lines witness (object event ∷ lines) p =
      read_event witness event (count_line p) >>= λ p'. read_lines witness lines p'

  -- The state before the first line, with the issues of the witness.
  abbrev pub start : List IssueCode → Progress
  start codes = record {
    issues = at_line 0 codes;
    events = [];
    previous_hash = none;
    events_verified = 0;
    line_number = 0;
    total_events = 0;
    newest_checkpoint = none;
    checkpoints_by_id = [];
    witness_found = false;
  }

  -- The result after the loop, with the issues of the coverage.
  abbrev pub conclude : List IssueCode → Progress → VerificationResult × List Event
  conclude codes p =
      let issues = p.issues ++ at_line 0 codes in
      (
        record { valid = is_empty issues; events_verified = p.events_verified; issues = issues },
        p.events,
      )

  -- The loop and the coverage, with a witness that is loaded. No lines stand for a journal that
  -- cannot be opened.
  unfoldable pub verify_lines :
      Python
      → Option Event
      → List IssueCode
      → Option (List Line)
      → Checked (VerificationResult × List Event)
  unfolding read_lines checkpoint_coverage
  verify_lines py witness codes none = value (
    record {
      valid = false;
      events_verified = 0;
      issues = record { line_number = 0; code = unreadable } ∷ [];
    },
    [],
  )
  verify_lines py witness codes (some lines) = do
    p ← read_lines (witness_id py witness) lines (start codes)
    coverage ← checkpoint_coverage py p.newest_checkpoint witness p.witness_found p.total_events
    value (conclude coverage p)

  -- `_read_and_verify`, which retains the events: `verify_journal` takes the result alone, and
  -- `load_journal_snapshot` both, with no witness. No line stands for `checkpoint=None`.
  unfoldable pub read_and_verify :
      Python → Option Line → Option (List Line) → Checked (VerificationResult × List Event)
  unfolding verify_lines load_checkpoint_witness
  read_and_verify py none lines = verify_lines py none [] lines
  read_and_verify py (some file) lines = do
    loaded ← load_checkpoint_witness c trusted file
    verify_lines py loaded.0 loaded.1 lines
