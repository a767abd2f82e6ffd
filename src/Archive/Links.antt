-- ===== src/Archive/Links.antt =====
-- One link of `verify_archive_chain` of src/tesera/archive.py: what the lines of a file that verifies
-- say, and what the tests of an archive event establish.
use tesera.Common.{
  ℕ, ◌+◌, true, Option, none, some, Bool-cases, Option-cases, inl, inr, List, [], ◌∷◌, String, ◌≡◌,
  refl, sym, ap, ◌∙◌, subst, length, arith,
}
use tesera.Common.Int.{ℤ, pos, negsuc}
use tesera.Json.Payload.{unsigned_payload}
use tesera.Json.{Event, get, as_str, as_int}
use tesera.Verification.{Crypto}
use tesera.Verification.Event.{is_previous}
use tesera.Verification.Witness.{Line, blank, bad_json, not_object, io_error, object}
use tesera.Verification.Sound.{objects, IsChain}
use tesera.Verification.Tamper.{head_from}
use tesera.Archive.{
  Directory, FirstEvent, no_event, first, first_event, stats, stats_of, is_count, is_bad_name,
  follow, check_stats, check_predecessor, check_name, check_link, new_head,
}
use tesera.Archive.Custody.{IsFile, Custody}

-- What the first event of a list is.
abbrev pub first_in : List Event → FirstEvent
first_in [] = no_event
first_in (event ∷ _) = first event

some_inj {ℓ} : {A : Type ℓ} (a b : A) → some a ≡ some b → a ≡ b
some_inj a b e = cc e

pub first_event-objects :
    (lines : List Line) (events : List Event)
    → objects lines ≡ some events
    → first_event lines ≡ first_in events
unfolding objects first_event
first_event-objects [] events e = ap first_in (some_inj [] events e)
first_event-objects (blank ∷ lines) events e = first_event-objects lines events e
first_event-objects (bad_json ∷ lines) events e = absurd (cc e)
first_event-objects (not_object ∷ lines) events e = absurd (cc e)
first_event-objects (io_error ∷ lines) events e = absurd (cc e)
first_event-objects (object event ∷ lines) events e = elim (Option-cases (objects lines)) [
  | inl n ↦ absurd (cc (rw (n, objects) at e))
  | inr (es, m) ↦ ap first_in (some_inj (event ∷ es) events (rw (m, objects) at e))
]

abbrev found : ℕ → Option String → Option (ℕ × Option String)
found n h = some (n, h)

stats-objects :
    (c : Crypto) (trusted : String → Option c.PublicKey) (lines : List Line) (events : List Event)
    (k : Option String) (n : ℕ) (h : Option String)
    → objects lines ≡ some events
    → IsChain c trusted k events
    → stats lines (n, h) ≡ found (n + length events) (head_from h events)
unfolding objects stats
stats-objects c trusted [] events k n h e s =
    subst (λ es. found n h ≡ found (n + length es) (head_from h es)) (some_inj [] events e)
      (ap (λ m. found m h) (omega arith))
stats-objects c trusted (blank ∷ lines) events k n h e s =
    stats-objects c trusted lines events k n h e s
stats-objects c trusted (bad_json ∷ lines) events k n h e s = absurd (cc e)
stats-objects c trusted (not_object ∷ lines) events k n h e s = absurd (cc e)
stats-objects c trusted (io_error ∷ lines) events k n h e s = absurd (cc e)
stats-objects c trusted (object event ∷ lines) events k n h e s =
    elim (Option-cases (objects lines)) [
      | inl m ↦ absurd (cc (rw (m, objects) at e))
      | inr (es, m) ↦
          let same = some_inj (event ∷ es) events (rw (m, objects) at e) in
          let t = subst (λ l. IsChain c trusted k l) (sym same) s in
          subst
            (λ l.
              stats lines (n + 1, new_head (as_str (get "event_hash" event)) h)
              ≡ found (n + length l) (head_from h l))
            same
            (rw (t.0.is_hashed) (
              stats-objects c trusted lines es _ (n + 1) _ m t.1
              ∙ ap (λ k. found k (head_from (some (c.digest (unsigned_payload event))) es))
                  (omega arith)))
    ]

is_count-eq : (n : ℕ) (k : Option ℤ) → is_count n k ≡ true → k ≡ some (pos n)
is_count-eq n none h = absurd (cc h)
is_count-eq n (some (pos m)) h = ap (λ k. some (pos k)) (ground arith)
is_count-eq n (some (negsuc m)) h = absurd (cc h)

module _ (directory : Directory) (c : Crypto) (trusted : String → Option c.PublicKey) where
  -- The file that a chain of custody starts with.
  pub newest-IsFile :
      {name : String} {hs : List (List Event)}
      → Custody directory c trusted name hs
      → (events : List Event) × (older : List (List Event)) × (hs ≡ events ∷ older)
        × IsFile directory c trusted name events
  newest-IsFile (Custody.empty_file f) = ([], [], refl, f)
  newest-IsFile (Custody.genesis e f n) = (_, [], refl, f)
  newest-IsFile (Custody.linked p e f a n k h older) = (_, _, refl, f)

  -- The tests that a followed link has passed.
  abbrev Passed : String → Event → ℕ × Option String → Type 0
  Passed name event (count, head) =
      (is_count count (as_int (get "prior_count" event)) ≡ true)
      × (is_previous head (get "prior_head" event) ≡ true)

  check_stats-follow :
      (current predecessor name : String) (event : Event) (found : Option (ℕ × Option String))
      → check_stats directory current predecessor event found ≡ follow name
      → (predecessor ≡ name)
        × ((acc : ℕ × Option String) × (found ≡ some acc) × Passed name event acc)
  unfolding check_stats
  check_stats-follow current predecessor name event none h = absurd (cc h)
  check_stats-follow current predecessor name event (some (count, head)) h =
      elim (Bool-cases (is_count count (as_int (get "prior_count" event)))) [
        | inr n ↦ absurd (cc (rw (n, check_stats) at h))
        | inl y ↦ elim (Bool-cases (is_previous head (get "prior_head" event))) [
          | inr n ↦ absurd (cc (rw (y, n, check_stats) at h))
          | inl z ↦ (cc (rw (y, z, check_stats) at h), ((count, head), refl, (y, z)))
        ]
      ]

  check_predecessor-follow :
      (current predecessor name : String) (event : Event) (lines : List Line)
      → check_predecessor directory current event predecessor ≡ follow name
      → directory name ≡ some (some lines)
      → (predecessor ≡ name)
        × ((acc : ℕ × Option String) × (stats lines (0, none) ≡ some acc) × Passed name event acc)
  unfolding check_predecessor
  check_predecessor-follow current predecessor name event lines h there =
      elim (Option-cases (directory predecessor)) [
        | inl n ↦ absurd (cc (rw (n, check_predecessor) at h))
        | inr (journal, e) ↦
            let s =
              check_stats-follow current predecessor name event (stats_of journal)
                (rw (e, check_predecessor) at h) in
            let same = some_inj journal (some lines) (sym e ∙ ap directory s.0 ∙ there) in
            (s.0, (s.1.0, unfold stats_of in (sym (ap stats_of same) ∙ s.1.1), s.1.2))
      ]

  -- A link that is followed names a file with the number of events and the hash it commits to.
  pub check_link-follow :
      (current name : String) (event : Event) (prior : List Event)
      → check_link directory current event ≡ follow name
      → IsFile directory c trusted name prior
      → (as_str (get "archived_path" event) ≡ some name)
        × (as_int (get "prior_count" event) ≡ some (pos (length prior)))
        × (is_previous (head_from none prior) (get "prior_head" event) ≡ true)
  unfolding check_link check_name
  check_link-follow current name event prior h f =
      elim (Bool-cases (is_bad_name (as_str (get "archived_path" event)))) [
        | inl bad ↦ absurd (cc (rw (bad, check_link) at h))
        | inr good ↦ elim (Option-cases (as_str (get "archived_path" event))) [
          | inl n ↦ absurd (cc (rw (good, n, check_link, check_name) at h))
          | inr (predecessor, e) ↦
              let s =
                check_predecessor-follow current predecessor name event f.lines
                  (rw (good, e, check_link, check_name) at h) f.is_there in
              let counted =
                stats-objects c trusted f.lines prior none 0 none f.are_objects f.is_chain in
              let acc = some_inj s.1.0 _ (sym s.1.1 ∙ counted) in
              let passed = subst (λ a. Passed name event a) acc s.1.2 in
              (
                e ∙ ap some s.0,
                is_count-eq (length prior) _ (
                    subst (λ n. is_count n (as_int (get "prior_count" event)) ≡ true) (omega arith)
                      passed.0),
                passed.1,
              )
        ]
      ]
