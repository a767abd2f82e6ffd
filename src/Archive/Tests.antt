-- ===== src/Archive/Tests.antt =====
-- Runs of `verify_archive_chain` of src/tesera/archive.py on a live journal and one archived file.
use tesera.Verification.Shape.{archive_issues, lacks_fields}
use tesera.Verification.Event.{verify_event}
use tesera.Verification.Journal.{read_event, read_and_verify}
use tesera.Common.{
  length, ◌≤◌, ℕ, ◌≡◌, refl, false, Option, none, some, List, [], ◌∷◌, String, map, str_eq, eq_iff,
  if◌then◌else◌,
}
use tesera.Common.Int.{pos}
use tesera.Json.{as_int, has, Event, null, str, int, field, end, get, as_str}
use tesera.Json.Payload.{finite_fields, unsigned_payload}
use tesera.Verification.{in_set, value}
use tesera.Verification.Toy.{toy, py, trusted, sealed, decision}
use tesera.Verification.Witness.{object, blank}
use tesera.Verification.Sound.{objects}
use tesera.Archive.{
  Directory, ArchiveChainReport, ArchiveChainIssue, archive_count_mismatch, archive_missing,
  archive_too_deep, verify_archive_chain,
}
use tesera.Archive.Custody.{Custody}
use tesera.Archive.Walk.{archive_chain-Custody}
use tesera.Archive.Bounded.{AreDistinct, archive_chain-AreDistinct}
use tesera.Archive.Sealed.{NoCollisions, payloads, same_live_head_same_archives}

abbrev archive : ℕ → String → Event
archive count path = sealed "e2" "archive" null (
    field "archived_path" (str path)
      (field "prior_count" (int (pos count)) (field "prior_head" (str "e1") end)))

abbrev files : ℕ → String → Directory
files count path name =
    if str_eq name "live"
    then some (some (object (archive count path) ∷ blank ∷ []))
    else if str_eq name "old"
    then some (some (object (decision "e1" null) ∷ []))
    else none

abbrev report : List String → Option ArchiveChainIssue → ArchiveChainReport
report checked issue = record { files_checked = checked; issue = issue }

run_chain :
    verify_archive_chain (files 1 "old") (λ s. s) toy trusted py 1024 "live"
    ≡ value (report ("live" ∷ "old" ∷ []) none)
unfolding verify_archive_chain read_and_verify read_event verify_event in_set get lacks_fields has
    finite_fields unsigned_payload archive_issues as_int
run_chain = refl

-- The archive event commits to one event more than the archived file holds.
run_count :
    verify_archive_chain (files 2 "old") (λ s. s) toy trusted py 1024 "live"
    ≡ value (report ("live" ∷ []) (some (record { file = "live"; code = archive_count_mismatch })))
unfolding verify_archive_chain read_and_verify read_event verify_event in_set get lacks_fields has
    finite_fields unsigned_payload archive_issues as_int
run_count = refl

run_missing :
    verify_archive_chain (files 1 "gone") (λ s. s) toy trusted py 1024 "live"
    ≡ value (report ("live" ∷ []) (some (record { file = "gone"; code = archive_missing })))
unfolding verify_archive_chain read_and_verify read_event verify_event in_set get lacks_fields has
    finite_fields unsigned_payload archive_issues as_int
run_missing = refl

run_too_deep :
    verify_archive_chain (files 1 "old") (λ s. s) toy trusted py 0 "live"
    ≡ value (report ("live" ∷ []) (some (record { file = "live"; code = archive_too_deep })))
unfolding verify_archive_chain read_and_verify read_event verify_event in_set get lacks_fields has
    finite_fields unsigned_payload archive_issues as_int
run_too_deep = refl

abbrev histories : List (List Event)
histories = (archive 1 "old" ∷ []) ∷ ((decision "e1" null) ∷ []) ∷ []

archive_chain-Custody_example : Custody (files 1 "old") toy trusted "live" histories
unfolding objects
archive_chain-Custody_example =
    archive_chain-Custody (files 1 "old") (λ s. s) toy trusted py 1024 "live" _ run_chain refl

apart : (s t : String) → str_eq s t ≡ false → s ≡ t → ⊥
apart s t h e = cc ((eq_iff s t).1 e, h)

no_collisions : NoCollisions toy histories histories
unfolding unsigned_payload get as_str
no_collisions = (
  (((λ e. refl, tt), tt), (((λ e. absurd (apart "e2" "e1" refl e), tt), tt), tt)),
  ((((λ e. absurd (apart "e1" "e2" refl e), tt), tt), (((λ e. refl, tt), tt), tt)), tt),
)

same_live_head_same_archives_example : map payloads histories ≡ map payloads histories
unfolding objects
same_live_head_same_archives_example =
    same_live_head_same_archives (files 1 "old") (files 1 "old") toy trusted trusted (λ s. s)
      (λ s. s) py 1024 1024 "live" "live" _ _ run_chain run_chain refl refl no_collisions refl

archive_chain-AreDistinct_example :
    (length {A = String} ("live" ∷ "old" ∷ []) ≤ 1025)
    × AreDistinct (λ s. s) [] ("live" ∷ "old" ∷ [])
archive_chain-AreDistinct_example =
    archive_chain-AreDistinct (files 1 "old") (λ s. s) toy trusted py 1024 "live" _ run_chain
