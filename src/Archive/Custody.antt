-- ===== src/Archive/Custody.antt =====
-- The chain of custody that `verify_archive_chain` of src/tesera/archive.py is to establish.
use tesera.Common.{ap, ◌∙◌, true, false, Option, none, some, List, [], ◌∷◌, String, ◌≡◌, length}
use tesera.Common.Int.{pos}
use tesera.Json.{Event, get, as_str, as_int, is_str}
use tesera.Verification.{Crypto}
use tesera.Verification.Event.{is_previous}
use tesera.Verification.Witness.{Line}
use tesera.Verification.Sound.{objects, IsChain}
use tesera.Verification.Tamper.{head_from}
use tesera.Archive.{Directory}

abbrev or_empty : Option (List Event) → List Event
or_empty none = []
or_empty (some events) = events

-- The events of a file, if it is there and every line of it that is not blank is an object.
abbrev pub events_in : Option (Option (List Line)) → List Event
events_in none = []
events_in (some none) = []
events_in (some (some lines)) = or_empty (objects lines)

-- The events of the files, a list for each.
abbrev pub contents : Directory → List String → List (List Event)
contents directory [] = []
contents directory (name ∷ names) = events_in (directory name) ∷ contents directory names

module _ (directory : Directory) (c : Crypto) (trusted : String → Option c.PublicKey) where
  -- The file is there, was read, and holds a hash chain of sealed events from the first on.
  pub record IsFile (name : String) (events : List Event) : Type 0 where
    pub lines : List Line
    pub is_there : directory name ≡ some (some lines)
    pub are_objects : objects lines ≡ some events
    pub is_chain : IsChain c trusted none events

  -- A file that starts with no archive event, or one whose first event commits to the number of
  -- events and to the last hash of the file that it names; and so on back to the first file. The
  -- histories are those of the files, the newest file first.
  pub data Custody : String → List (List Event) → Type 0 where
    empty_file : {name : String} → IsFile name [] → Custody name ([] ∷ [])
    genesis :
        {name : String} (event : Event) {events : List Event}
        → IsFile name (event ∷ events)
        → is_str "archive" (get "event_type" event) ≡ false
        → Custody name ((event ∷ events) ∷ [])
    linked :
        {name : String} (predecessor : String) (event : Event) {events prior : List Event}
        {older : List (List Event)}
        → IsFile name (event ∷ events)
        → is_str "archive" (get "event_type" event) ≡ true
        → as_str (get "archived_path" event) ≡ some predecessor
        → as_int (get "prior_count" event) ≡ some (pos (length prior))
        → is_previous (head_from none prior) (get "prior_head" event) ≡ true
        → Custody predecessor (prior ∷ older)
        → Custody name ((event ∷ events) ∷ prior ∷ older)

  pub events_in-IsFile :
      (name : String) (events : List Event)
      → IsFile name events
      → events_in (directory name) ≡ events
  events_in-IsFile name events f = ap events_in f.is_there ∙ ap or_empty f.are_objects
