-- ===== src/Archive.antt =====
-- `verify_archive_chain` of src/tesera/archive.py: the walk from the live journal back over the
-- archived files that it links to. The files of the directory are a function of their names, and
-- `resolve` is the text of the resolved path; a file that is there may still be unreadable.
-- The walk parses raw lines and the verifier stripped ones. The two agree on a line with no vertical tab
-- and no form feed at its ends, and a line is taken to be such.
pub mod Custody
pub mod Links
pub mod Walk
pub mod Sealed
pub mod Bounded
mod Tests
use tesera.Common.{
  ℕ, zero, suc, Bool, true, false, not, Option, none, some, List, [], ◌∷◌, String, ◌&&◌, ◌||◌, ◌==◌,
  ◌+◌, any_of, str_eq, if◌then◌else◌,
}
use tesera.Common.Int.{ℤ, pos, negsuc}
use tesera.Json.{Json, Event, get, as_str, as_int, is_str}
use tesera.Verification.{Checked, value, raises, Crypto, Python}
use tesera.Verification.Shape.{codes, has_code}
use tesera.Verification.Event.{is_previous}
use tesera.Verification.Witness.{Line, blank, bad_json, not_object, io_error, object}
use tesera.Verification.Journal.{VerificationResult, read_and_verify}

pub data ArchiveChainCode : Type 0 where
  archive_cycle archive_missing archive_invalid archive_unreadable : ArchiveChainCode
  archive_too_deep archive_bad_link archive_count_mismatch archive_head_mismatch : ArchiveChainCode

pub record ArchiveChainIssue : Type 0 where
  pub file : String
  pub code : ArchiveChainCode

-- The loop stops at its first issue, so a report holds at most one.
pub record ArchiveChainReport : Type 0 where
  pub files_checked : List String
  pub issue : Option ArchiveChainIssue

-- `ArchiveChainReport.valid`
abbrev pub is_valid : ArchiveChainReport → Bool
is_valid report = elim report.issue [ none ↦ true | some _ ↦ false ]

-- No file, or a file with its stripped lines, or one that cannot be read.
abbrev pub Directory : Type 0
Directory = String → Option (Option (List Line))

abbrev pub stop : String → ArchiveChainCode → Checked ArchiveChainReport
stop file code =
    value (record { files_checked = []; issue = some (record { file = file; code = code }) })

abbrev pub complete : Checked ArchiveChainReport
complete = value (record { files_checked = []; issue = none })

-- `files_checked.append(...)` before the rest of the walk.
abbrev pub checked_file : String → Checked ArchiveChainReport → Checked ArchiveChainReport
checked_file file (raises e) = raises e
checked_file file (value r) = value (record r { files_checked = file ∷ r.files_checked })

-- What the first line that is not blank holds.
pub data FirstEvent : Type 0 where
  no_event unreadable : FirstEvent
  first : Event → FirstEvent

unfoldable pub first_event : List Line → FirstEvent
first_event [] = no_event
first_event (blank ∷ lines) = first_event lines
first_event (bad_json ∷ _) = unreadable
first_event (not_object ∷ _) = no_event
first_event (io_error ∷ _) = unreadable
first_event (object event ∷ _) = first event

abbrev pub first_of : Option (List Line) → FirstEvent
first_of none = unreadable
first_of (some lines) = first_event lines

-- `h if isinstance(h, str)`, else the head so far.
abbrev pub new_head : Option String → Option String → Option String
new_head (some h) head = some h
new_head none head = head

-- The loop that counts the lines and keeps the last hash; none is the OSError.
unfoldable pub stats : List Line → ℕ × Option String → Option (ℕ × Option String)
stats [] acc = some acc
stats (blank ∷ lines) acc = stats lines acc
stats (bad_json ∷ lines) (count, head) = stats lines (count + 1, head)
stats (not_object ∷ lines) (count, head) = stats lines (count + 1, head)
stats (io_error ∷ lines) acc = none
stats (object event ∷ lines) (count, head) =
    stats lines (count + 1, new_head (as_str (get "event_hash" event)) head)

abbrev pub stats_of : Option (List Line) → Option (ℕ × Option String)
unfolding stats
stats_of none = none
stats_of (some lines) = stats lines (0, none)

-- `isinstance(prior_count, int) and count == prior_count`
abbrev pub is_count : ℕ → Option ℤ → Bool
is_count count none = false
is_count count (some (pos n)) = count == n
is_count count (some (negsuc n)) = false

-- The test on a name that is no text, or no bare file name.
abbrev pub is_bad_name : Option String → Bool
is_bad_name none = true
is_bad_name (some s) =
    has_code 47 (codes s) || (has_code 92 (codes s) || (str_eq s "." || str_eq s ".."))

-- A link is followed to its predecessor, or the walk stops with an issue of a file.
pub data Link : Type 0 where
  broken : String → ArchiveChainCode → Link
  follow : String → Link

module _ (directory : Directory) where
  -- The tests of the count and the head, on the predecessor's own.
  unfoldable pub check_stats : String → String → Event → Option (ℕ × Option String) → Link
  check_stats current predecessor event none = broken predecessor archive_unreadable
  check_stats current predecessor event (some (count, head)) =
      if not (is_count count (as_int (get "prior_count" event)))
      then broken current archive_count_mismatch
      else if not (is_previous head (get "prior_head" event))
      then broken current archive_head_mismatch
      else follow predecessor

  unfoldable pub check_predecessor : String → Event → String → Link
  unfolding check_stats stats_of
  check_predecessor current event name = elim (directory name) [
    | none ↦ broken name archive_missing
    | some journal ↦ check_stats current name event (stats_of journal)
  ]

  abbrev pub check_name : String → Event → Option String → Link
  unfolding check_predecessor
  check_name current event none = broken current archive_bad_link
  check_name current event (some name) = check_predecessor current event name

  -- The tests of one archive event.
  unfoldable pub check_link : String → Event → Link
  unfolding check_name
  check_link current event =
      let name = as_str (get "archived_path" event) in
      if is_bad_name name then broken current archive_bad_link else check_name current event name

-- What follows a link, if `links` allows one more.
abbrev pub Next : Type 0
Next = Option (String → Checked ArchiveChainReport)

module _ (directory : Directory) (resolve : String → String) (c : Crypto)
    (trusted : String → Option c.PublicKey) (py : Python) where
  abbrev pub follow_link : (String → Checked ArchiveChainReport) → Link → Checked ArchiveChainReport
  follow_link go (broken file code) = stop file code
  follow_link go (follow name) = go name

  -- The branch on an archive event.
  abbrev pub after_archive : Next → String → Event → Checked ArchiveChainReport
  unfolding check_link
  after_archive none current event = stop current archive_too_deep
  after_archive (some go) current event = follow_link go (check_link directory current event)

  -- The branch of the walk on the first event of a file that verifies.
  unfoldable pub after_first : Next → String → FirstEvent → Checked ArchiveChainReport
  unfolding after_archive
  after_first next current no_event = complete
  after_first next current unreadable = stop current archive_unreadable
  after_first next current (first event) =
      if not (is_str "archive" (get "event_type" event))
      then complete
      else after_archive next current event

  unfoldable pub after_verify :
      Next
      → String
      → Option (List Line)
      → Checked (VerificationResult × List Event)
      → Checked ArchiveChainReport
  unfolding after_first first_event
  after_verify next current journal (raises e) = raises e
  after_verify next current journal (value (result, events)) =
      if result.valid
      then checked_file current (after_first next current (first_of journal))
      else checked_file current (stop current archive_invalid)

  -- One turn of the loop.
  unfoldable pub visit : Next → List String → String → Checked ArchiveChainReport
  unfolding after_verify
  visit next seen current =
      if any_of (λ k. str_eq k (resolve current)) seen
      then stop current archive_cycle
      else elim (directory current) [
        | none ↦ stop current archive_missing
        | some journal ↦
            after_verify next current journal (read_and_verify c trusted py none journal)
      ]

  -- The loop, on the links that `max_links` leaves.
  unfoldable pub verify_from : ℕ → List String → String → Checked ArchiveChainReport
  unfolding visit
  verify_from zero seen current = visit none seen current
  verify_from (suc left) seen current =
      visit (some (λ name. verify_from left (resolve current ∷ seen) name)) seen current

  -- `verify_archive_chain`, with its `max_links`.
  unfoldable pub verify_archive_chain : ℕ → String → Checked ArchiveChainReport
  unfolding verify_from
  verify_archive_chain max_links live = verify_from max_links [] live
