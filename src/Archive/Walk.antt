-- ===== src/Archive/Walk.antt =====
-- The walk of `verify_archive_chain` of src/tesera/archive.py: a valid report is a chain of custody.
use tesera.Common.{
  ℕ, zero, suc, Bool, true, false, Option, none, some, Bool-cases, Option-cases, inl, inr, List, [],
  ◌∷◌, String, ◌≡◌, refl, sym, ap, ◌∙◌, subst, any_of, str_eq,
}
use tesera.Json.{Event, get, is_str}
use tesera.Verification.{Checked, value, raises, Crypto, Python}
use tesera.Verification.Witness.{Line}
use tesera.Verification.Journal.{VerificationResult, read_and_verify}
use tesera.Verification.Valid.{valid_chain}
use tesera.Archive.{
  Directory, ArchiveChainReport, ArchiveChainCode, is_valid, stop, checked_file, first_of, Link,
  broken, follow, check_link, Next, follow_link, after_first, after_archive, after_verify,
  archive_too_deep, archive_invalid, archive_cycle, archive_missing, ArchiveChainIssue, visit,
  verify_from, verify_archive_chain,
}
use tesera.Verification.Facts.{value-inj}
use tesera.Archive.Custody.{IsFile, Custody, contents, events_in-IsFile}
use tesera.Archive.Links.{first_in, first_event-objects, newest-IsFile, check_link-follow}

abbrev valid_issue : Option ArchiveChainIssue → Bool
valid_issue o = elim o [ none ↦ true | some _ ↦ false ]

-- What a file is reported with is what follows it.
pub checked_file-value :
    (file : String) (m : Checked ArchiveChainReport) (r : ArchiveChainReport)
    → checked_file file m ≡ value r
    → (q : ArchiveChainReport) × (m ≡ value q)
      × (q.issue ≡ r.issue)
      × (r.files_checked ≡ file ∷ q.files_checked)
checked_file-value file (raises e) r h = absurd (cc h)
checked_file-value file (value q) r h =
    let same = value-inj (record q { files_checked = file ∷ q.files_checked }) r h in
    (q, refl, ap (λ r. r.issue) same, sym (ap (λ r. r.files_checked) same))

module _ (directory : Directory) (resolve : String → String) (c : Crypto)
    (trusted : String → Option c.PublicKey) (py : Python) where
  -- A stop is no valid report.
  stop-invalid :
      (file : String) (code : ArchiveChainCode) (r : ArchiveChainReport)
      → stop file code ≡ value r
      → is_valid r ≡ true
      → ⊥
  stop-invalid file code r h v = cc (ap is_valid (value-inj _ r h), v)

  -- What is to be shown of a walk from a file: custody of the files that it checked.
  abbrev pub HasCustody : String → ArchiveChainReport → Type 0
  HasCustody name r = Custody directory c trusted name (contents directory r.files_checked)

  -- The walk that follows a link has been dealt with.
  abbrev IsSound : Next → Type 0
  IsSound none = Unit
  IsSound (some go) =
      (name : String) (r : ArchiveChainReport)
      → go name ≡ value r
      → is_valid r ≡ true
      → HasCustody name r

  -- Custody of a file with these events and of those that were checked behind it.
  abbrev HasMore : String → List Event → ArchiveChainReport → Type 0
  HasMore name events r =
      Custody directory c trusted name (events ∷ contents directory r.files_checked)

  after_link-HasMore :
      (go : String → Checked ArchiveChainReport) (current : String) (event : Event)
      (events : List Event) (link : Link) (r : ArchiveChainReport)
      → IsSound (some go)
      → IsFile directory c trusted current (event ∷ events)
      → is_str "archive" (get "event_type" event) ≡ true
      → check_link directory current event ≡ link
      → follow_link directory resolve c trusted py go link ≡ value r
      → is_valid r ≡ true
      → HasMore current (event ∷ events) r
  after_link-HasMore go current event events (broken file code) r sound f a e h v =
      absurd (stop-invalid file code r h v)
  after_link-HasMore go current event events (follow name) r sound f a e h v =
      let custody = sound name r h v in
      let (prior, older, same, g) = newest-IsFile directory c trusted custody in
      let (named, counted, headed) =
        check_link-follow directory c trusted current name event prior e g in
      subst (λ l. Custody directory c trusted current ((event ∷ events) ∷ l)) (sym same)
        (Custody.linked name event f a named counted headed
          (subst (λ l. Custody directory c trusted name l) same custody))

  after_archive-HasMore :
      (next : Next) (current : String) (event : Event) (events : List Event)
      (r : ArchiveChainReport)
      → IsSound next
      → IsFile directory c trusted current (event ∷ events)
      → is_str "archive" (get "event_type" event) ≡ true
      → after_archive directory resolve c trusted py next current event ≡ value r
      → is_valid r ≡ true
      → HasMore current (event ∷ events) r
  unfolding after_archive
  after_archive-HasMore none current event events r sound f a h v =
      absurd (stop-invalid current archive_too_deep r h v)
  after_archive-HasMore (some go) current event events r sound f a h v =
      after_link-HasMore go current event events (check_link directory current event) r sound f a
        refl h v

  after_first-HasMore :
      (next : Next) (current : String) (events : List Event) (r : ArchiveChainReport)
      → IsSound next
      → IsFile directory c trusted current events
      → after_first directory resolve c trusted py next current (first_in events) ≡ value r
      → is_valid r ≡ true
      → HasMore current events r
  unfolding after_first
  after_first-HasMore next current [] r sound f h v =
      subst (λ r. HasMore current [] r) (value-inj _ r h) (Custody.empty_file f)
  after_first-HasMore next current (event ∷ events) r sound f h v =
      elim (Bool-cases (is_str "archive" (get "event_type" event))) [
        | inr n ↦
            subst (λ r. HasMore current (event ∷ events) r)
              (value-inj _ r (rw (n, after_first) at h)) (Custody.genesis event f n)
        | inl y ↦
            after_archive-HasMore next current event events r sound f y (rw (y, after_first) at h) v
      ]

  after_verify-HasCustody :
      (next : Next) (current : String) (journal : Option (List Line))
      (m : Checked (VerificationResult × List Event)) (r : ArchiveChainReport)
      → IsSound next
      → directory current ≡ some journal
      → read_and_verify c trusted py none journal ≡ m
      → after_verify directory resolve c trusted py next current journal m ≡ value r
      → is_valid r ≡ true
      → HasCustody current r
  unfolding after_verify
  after_verify-HasCustody next current journal (raises e) r sound there read h v = absurd (cc h)
  after_verify-HasCustody next current journal (value (result, events)) r sound there read h v =
      elim (Bool-cases result.valid) [
        | inr n ↦
            let (q, e, same, l) = checked_file-value current _ r (rw (n, after_verify) at h) in
            absurd (stop-invalid current archive_invalid q e (ap valid_issue same ∙ v))
        | inl y ↦
            let (q, e, same, l) = checked_file-value current _ r (rw (y, after_verify) at h) in
            let chain = (valid_chain c trusted py none journal result events read y).0 in
            let file : IsFile directory c trusted current events = record {
              lines = chain.lines;
              is_there = there ∙ ap some chain.is_read;
              are_objects = chain.are_objects;
              is_chain = chain.is_chain;
            } in
            let first =
              ap first_of chain.is_read
              ∙ first_event-objects chain.lines events chain.are_objects in
            let custody =
              after_first-HasMore next current events q sound file
                (subst (λ o. after_first directory resolve c trusted py next current o ≡ value q)
                  first e)
                (ap valid_issue same ∙ v) in
            subst (λ l. Custody directory c trusted current l)
              (ap (λ es. es ∷ contents directory q.files_checked)
                  (sym (events_in-IsFile directory c trusted current events file))
                ∙ ap (contents directory) (sym l))
              custody
      ]

  visit-HasCustody :
      (next : Next) (seen : List String) (current : String) (r : ArchiveChainReport)
      → IsSound next
      → visit directory resolve c trusted py next seen current ≡ value r
      → is_valid r ≡ true
      → HasCustody current r
  unfolding visit
  visit-HasCustody next seen current r sound h v =
      elim (Bool-cases (any_of (λ k. str_eq k (resolve current)) seen)) [
        | inl y ↦ absurd (stop-invalid current archive_cycle r (rw (y, visit) at h) v)
        | inr n ↦ elim (Option-cases (directory current)) [
          | inl m ↦ absurd (stop-invalid current archive_missing r (rw (n, m, visit) at h) v)
          | inr (journal, e) ↦
              after_verify-HasCustody next current journal _ r sound e refl (rw (n, e, visit) at h)
                v
        ]
      ]

  verify_from-HasCustody :
      (left : ℕ) (seen : List String) (current : String) (r : ArchiveChainReport)
      → verify_from directory resolve c trusted py left seen current ≡ value r
      → is_valid r ≡ true
      → HasCustody current r
  unfolding verify_from
  verify_from-HasCustody zero seen current r h v = visit-HasCustody none seen current r tt h v
  verify_from-HasCustody (suc left) seen current r h v =
      visit-HasCustody
        (some
          (λ name. verify_from directory resolve c trusted py left (resolve current ∷ seen) name))
        seen current r
        (λ name q g w. verify_from-HasCustody left (resolve current ∷ seen) name q g w) h v

  -- If the report on a chain of archives is valid, then the live journal and every archived file
  -- it leads to were read, each is a hash chain of sealed events, each archive event commits to the
  -- number of events and to the last hash of the file that it names, the walk ended at a file that
  -- starts with no archive event, and exactly these files are reported as checked, in this order.
  pub archive_chain-Custody :
      (max_links : ℕ) (live : String) (r : ArchiveChainReport)
      → verify_archive_chain directory resolve c trusted py max_links live ≡ value r
      → is_valid r ≡ true
      → HasCustody live r
  unfolding verify_archive_chain
  archive_chain-Custody max_links live r h v = verify_from-HasCustody max_links [] live r h v
