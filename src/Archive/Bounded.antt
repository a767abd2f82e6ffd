-- ===== src/Archive/Bounded.antt =====
-- The walk of `verify_archive_chain` of src/tesera/archive.py ends, whatever the links say.
use tesera.Common.{
  ℕ, zero, suc, ◌≤◌, false, Option, none, some, Bool-cases, Option-cases, inl, inr, List, [], ◌∷◌,
  String, ◌≡◌, refl, sym, ap, ◌∙◌, subst, length, arith, any_of, str_eq,
}
use tesera.Json.{Event, get, is_str}
use tesera.Verification.{Checked, value, raises, Crypto, Python}
use tesera.Verification.Witness.{Line}
use tesera.Verification.Journal.{VerificationResult}
use tesera.Verification.Facts.{value-inj}
use tesera.Archive.{
  Directory, ArchiveChainReport, FirstEvent, no_event, unreadable, first, first_of, Link, broken,
  follow, check_link, Next, after_first, after_archive, after_verify, visit, verify_from,
  verify_archive_chain,
}
use tesera.Archive.Walk.{checked_file-value}

-- No two of the files resolve to the same path, and none to a path seen before.
abbrev pub AreDistinct : (String → String) → List String → List String → Type 0
AreDistinct resolve seen [] = Unit
AreDistinct resolve seen (name ∷ names) =
    (any_of (λ k. str_eq k (resolve name)) seen ≡ false)
    × AreDistinct resolve (resolve name ∷ seen) names

module _ (directory : Directory) (resolve : String → String) (c : Crypto)
    (trusted : String → Option c.PublicKey) (py : Python) where
  -- At most `n` files, all new.
  abbrev IsBounded : List String → ℕ → List String → Type 0
  IsBounded seen n names = (length names ≤ n) × AreDistinct resolve seen names

  abbrev GoesOn : List String → ℕ → Next → Type 0
  GoesOn seen n none = Unit
  GoesOn seen n (some go) =
      (name : String) (r : ArchiveChainReport)
      → go name ≡ value r
      → IsBounded seen n r.files_checked

  -- A report of no file.
  ended :
      (seen : List String) (n : ℕ) (q r : ArchiveChainReport)
      → q.files_checked ≡ []
      → value q ≡ value r
      → IsBounded seen n r.files_checked
  ended seen n q r e h =
      subst (λ l. IsBounded seen n l) (sym e ∙ ap (λ r. r.files_checked) (value-inj q r h))
        (omega arith, tt)

  after_archive-IsBounded :
      (seen : List String) (n : ℕ) (next : Next) (current : String) (event : Event) (link : Link)
      (r : ArchiveChainReport)
      → GoesOn seen n next
      → check_link directory current event ≡ link
      → after_archive directory resolve c trusted py next current event ≡ value r
      → IsBounded seen n r.files_checked
  unfolding after_archive
  after_archive-IsBounded seen n none current event link r go e h = ended seen n _ r refl h
  after_archive-IsBounded seen n (some f) current event (broken file code) r go e h =
      ended seen n _ r refl (rw e at h)
  after_archive-IsBounded seen n (some f) current event (follow name) r go e h =
      go name r (rw e at h)

  after_first-IsBounded :
      (seen : List String) (n : ℕ) (next : Next) (current : String) (o : FirstEvent)
      (r : ArchiveChainReport)
      → GoesOn seen n next
      → after_first directory resolve c trusted py next current o ≡ value r
      → IsBounded seen n r.files_checked
  unfolding after_first
  after_first-IsBounded seen n next current no_event r go h = ended seen n _ r refl h
  after_first-IsBounded seen n next current unreadable r go h = ended seen n _ r refl h
  after_first-IsBounded seen n next current (first event) r go h =
      elim (Bool-cases (is_str "archive" (get "event_type" event))) [
        | inr m ↦ ended seen n _ r refl (rw (m, after_first) at h)
        | inl y ↦
            after_archive-IsBounded seen n next current event _ r go refl (rw (y, after_first) at h)
      ]

  -- A file that was checked, in front of what follows it.
  with_file :
      (seen : List String) (n : ℕ) (current : String) (q r : ArchiveChainReport)
      → any_of (λ k. str_eq k (resolve current)) seen ≡ false
      → IsBounded (resolve current ∷ seen) n q.files_checked
      → r.files_checked ≡ current ∷ q.files_checked
      → IsBounded seen (suc n) r.files_checked
  with_file seen n current q r new h e =
      subst (λ l. IsBounded seen (suc n) l) (sym e) (omega (arith, h.0), (new, h.1))

  after_verify-IsBounded :
      (seen : List String) (n : ℕ) (next : Next) (current : String) (journal : Option (List Line))
      (m : Checked (VerificationResult × List Event)) (r : ArchiveChainReport)
      → GoesOn (resolve current ∷ seen) n next
      → any_of (λ k. str_eq k (resolve current)) seen ≡ false
      → after_verify directory resolve c trusted py next current journal m ≡ value r
      → IsBounded seen (suc n) r.files_checked
  unfolding after_verify
  after_verify-IsBounded seen n next current journal (raises e) r go new h = absurd (cc h)
  after_verify-IsBounded seen n next current journal (value (result, events)) r go new h =
      elim (Bool-cases result.valid) [
        | inr m ↦
            let (q, e, _, l) = checked_file-value current _ r (rw (m, after_verify) at h) in
            with_file seen n current q r new (ended (resolve current ∷ seen) n _ q refl e) l
        | inl y ↦
            let (q, e, _, l) = checked_file-value current _ r (rw (y, after_verify) at h) in
            with_file seen n current q r new
              (after_first-IsBounded (resolve current ∷ seen) n next current (first_of journal) q go
                e)
              l
      ]

  visit-IsBounded :
      (seen : List String) (n : ℕ) (next : Next) (current : String) (r : ArchiveChainReport)
      → GoesOn (resolve current ∷ seen) n next
      → visit directory resolve c trusted py next seen current ≡ value r
      → IsBounded seen (suc n) r.files_checked
  unfolding visit
  visit-IsBounded seen n next current r go h =
      elim (Bool-cases (any_of (λ k. str_eq k (resolve current)) seen)) [
        | inl y ↦ ended seen (suc n) _ r refl (rw (y, visit) at h)
        | inr new ↦ elim (Option-cases (directory current)) [
          | inl m ↦ ended seen (suc n) _ r refl (rw (new, m, visit) at h)
          | inr (journal, e) ↦
              after_verify-IsBounded seen n next current journal _ r go new
                (rw (new, e, visit) at h)
        ]
      ]

  verify_from-IsBounded :
      (left : ℕ) (seen : List String) (current : String) (r : ArchiveChainReport)
      → verify_from directory resolve c trusted py left seen current ≡ value r
      → IsBounded seen (suc left) r.files_checked
  unfolding verify_from
  verify_from-IsBounded zero seen current r h = visit-IsBounded seen 0 none current r tt h
  verify_from-IsBounded (suc left) seen current r h =
      visit-IsBounded seen (suc left)
        (some
          (λ name. verify_from directory resolve c trusted py left (resolve current ∷ seen) name))
        current r (λ name q g. verify_from-IsBounded left (resolve current ∷ seen) name q g) h

  -- The walk over a chain of archives ends, whatever the files of the directory link to: a report
  -- names at most one file more than `max_links`, and no two files that resolve to the same path.
  pub archive_chain-AreDistinct :
      (max_links : ℕ) (live : String) (r : ArchiveChainReport)
      → verify_archive_chain directory resolve c trusted py max_links live ≡ value r
      → (length r.files_checked ≤ suc max_links) × AreDistinct resolve [] r.files_checked
  unfolding verify_archive_chain
  archive_chain-AreDistinct max_links live r h = verify_from-IsBounded max_links [] live r h
