-- ===== src/Verification/Sound.antt =====
-- What a valid result of `_read_and_verify` of src/tesera/verification.py says of the journal.
use tesera.Common.{
  ◌+◌, Bool, true, false, Option, none, some, List, [], ◌∷◌, ◌++◌, String, ◌≡◌, refl, ap, sym,
  subst, ◌∙◌, arith, length, any_of, ◌||◌,
}
use mathlib.Core.List.{append-nil, append_assoc}
use tesera.Json.{Event, get, as_str}
use tesera.Verification.{IssueCode, value, Crypto, Python}
use tesera.Verification.Event.{verify_event}
use tesera.Verification.Witness.{Line, blank, bad_json, not_object, io_error, object}
use tesera.Verification.Coverage.{checkpoint_coverage}
use tesera.Verification.Journal.{
  VerificationResult, Progress, advance, read_event, read_lines, start, conclude, verify_lines,
  at_line, count_line, witness_id, is_witness,
}
use tesera.Verification.Facts.{
  bind-value, value-inj, append-empty, append-nonempty, at_line-empty, is_empty-true,
}
use tesera.Verification.Chain.{IsSealed, verify_event-none}

or-false : (b : Bool) → b ≡ (b || false)
or-false true = refl
or-false false = refl

or_assoc : (a b c : Bool) → ((a || b) || c) ≡ (a || (b || c))
or_assoc true b c = refl
or_assoc false b c = refl

-- The objects of the lines, if every line is an object or blank.
unfoldable pub objects : List Line → Option (List Event)
objects [] = some []
objects (blank ∷ lines) = objects lines
objects (object event ∷ lines) = elim (objects lines) [ none ↦ none | some es ↦ some (event ∷ es) ]
objects (_ ∷ lines) = none

-- Every event is sealed, and linked to the hash of the event before it, the first to `expected`.
abbrev pub IsChain :
    (c : Crypto) → (String → Option c.PublicKey) → Option String → List Event → Type 0
IsChain c trusted expected [] = Unit
IsChain c trusted expected (event ∷ events) =
    IsSealed c trusted expected event × IsChain c trusted (as_str (get "event_hash" event)) events

module _ (c : Crypto) (trusted : String → Option c.PublicKey) where
  -- One event read without an issue.
  abbrev ReadsEvent : Option String → Event → Progress → Progress → Type 0
  ReadsEvent witness event p q =
      (p.issues ≡ []) × IsSealed c trusted p.previous_hash event × (q ≡ advance witness event [] p)

  read_event-clean :
      (witness : Option String) (event : Event) (p q : Progress)
      → read_event c trusted witness event p ≡ value q
      → q.issues ≡ []
      → ReadsEvent witness event p q
  unfolding read_event advance
  read_event-clean witness event p q h clean =
      let (codes, verified, rest) =
        bind-value (verify_event c trusted p.previous_hash p.checkpoints_by_id event) _ q h in
      let same = value-inj _ q rest in
      let (before, now) =
        append-empty p.issues (at_line p.line_number codes) (ap (λ q. q.issues) same ∙ clean) in
      let no_codes = at_line-empty p.line_number codes now in
      (
        before,
        verify_event-none c trusted p.previous_hash p.checkpoints_by_id event
            (rw no_codes at verified),
        sym same ∙ ap (λ codes. advance witness event codes p) no_codes,
      )

  -- The loop from `p` to `q` read the events, each without an issue.
  pub record ReadsAll (witness : Option String) (lines : List Line) (p q : Progress) : Type 0 where
    pub events : List Event
    pub are_objects : objects lines ≡ some events
    pub was_clean : p.issues ≡ []
    pub is_chain : IsChain c trusted p.previous_hash events
    pub kept : q.events ≡ p.events ++ events
    pub verified : q.events_verified ≡ p.events_verified + length events
    pub total : q.total_events ≡ p.total_events + length events
    pub found : q.witness_found ≡ (p.witness_found || any_of (is_witness witness) events)

  pub read_lines-clean :
      (witness : Option String) (lines : List Line) (p q : Progress)
      → read_lines c trusted witness lines p ≡ value q
      → q.issues ≡ []
      → ReadsAll witness lines p q
  unfolding read_lines objects advance
  read_lines-clean witness [] p q h clean =
      let same = value-inj p q h in
      record {
        events = [];
        are_objects = refl;
        was_clean = ap (λ p. p.issues) same ∙ clean;
        is_chain = tt;
        kept = sym (append-nil p.events ∙ ap (λ p. p.events) same);
        verified = rw same (omega arith);
        total = rw same (omega arith);
        found = rw same (or-false q.witness_found);
      }
  read_lines-clean witness (blank ∷ lines) p q h clean =
      let r = read_lines-clean witness lines (count_line p) q h clean in
      record {
        events = r.events;
        are_objects = r.are_objects;
        was_clean = r.was_clean;
        is_chain = r.is_chain;
        kept = r.kept;
        verified = r.verified;
        total = r.total;
        found = r.found;
      }
  read_lines-clean witness (bad_json ∷ lines) p q h clean =
      absurd (append-nonempty _ _ (ap (λ q. q.issues) (value-inj _ q h) ∙ clean))
  read_lines-clean witness (not_object ∷ lines) p q h clean =
      absurd (append-nonempty _ _ (ap (λ q. q.issues) (value-inj _ q h) ∙ clean))
  read_lines-clean witness (io_error ∷ lines) p q h clean =
      absurd (append-nonempty _ _ (ap (λ q. q.issues) (value-inj _ q h) ∙ clean))
  read_lines-clean witness (object event ∷ lines) p q h clean =
      let (m, first, rest) = bind-value (read_event c trusted witness event (count_line p)) _ q h in
      let r = read_lines-clean witness lines m q rest clean in
      let (before, sealed, e) = read_event-clean witness event (count_line p) m first r.was_clean in
      record {
        events = event ∷ r.events;
        are_objects = rw r.are_objects refl;
        was_clean = before;
        is_chain = (
          sealed,
          subst (λ h. IsChain c trusted h r.events) (ap (λ m. m.previous_hash) e) r.is_chain,
        );
        kept =
            r.kept ∙ ap (λ m. m.events ++ r.events) e ∙ append_assoc p.events (event ∷ []) r.events;
        verified = omega (arith, r.verified, ap (λ m. m.events_verified) e);
        total = omega (arith, r.total, ap (λ m. m.total_events) e);
        found =
            r.found
            ∙ ap (λ m. m.witness_found || any_of (is_witness witness) r.events) e
            ∙ or_assoc p.witness_found (is_witness witness event) _;
      }

  -- What a valid result says of the lines, and of the state at the end of the loop.
  pub record IsValid (py : Python) (witness : Option Event) (codes : List IssueCode)
      (journal : Option (List Line)) (result : VerificationResult) (events : List Event)
      : Type 0 where
    pub lines : List Line
    pub is_read : journal ≡ some lines
    pub are_objects : objects lines ≡ some events
    pub is_chain : IsChain c trusted none events
    pub all_verified : result.events_verified ≡ length events
    pub no_codes : codes ≡ []
    pub newest : Option Event
    pub covered :
        checkpoint_coverage py newest witness
          (any_of (is_witness (witness_id py witness)) events)
          (length events)
        ≡ value []

  conclude-valid :
      (py : Python) (witness : Option Event) (codes coverage : List IssueCode) (lines : List Line)
      (p : Progress) (result : VerificationResult) (events : List Event)
      → read_lines c trusted (witness_id py witness) lines (start c trusted codes) ≡ value p
      → checkpoint_coverage py p.newest_checkpoint witness p.witness_found p.total_events
        ≡ value coverage
      → conclude c trusted coverage p ≡ (result, events)
      → result.valid ≡ true
      → IsValid py witness codes (some lines) result events
  conclude-valid py witness codes coverage lines p result events read covered same valid =
      let (clean, no_coverage) =
        append-empty p.issues (at_line 0 coverage)
          (is_empty-true _ (ap (λ r. r.0.valid) same ∙ valid)) in
      let r = read_lines-clean (witness_id py witness) lines (start c trusted codes) p read clean in
      let events_same = sym r.kept ∙ ap (λ r. r.1) same in
      let none_left = at_line-empty 0 coverage no_coverage in
      record {
        lines = lines;
        is_read = refl;
        are_objects = r.are_objects ∙ ap some events_same;
        is_chain = subst (λ es. IsChain c trusted none es) events_same r.is_chain;
        all_verified =
            omega (arith, r.verified, ap (λ r. r.0.events_verified) same, ap length events_same);
        no_codes = at_line-empty 0 codes r.was_clean;
        newest = p.newest_checkpoint;
        covered =
            subst
              (λ es.
                checkpoint_coverage py p.newest_checkpoint witness
                  (any_of (is_witness (witness_id py witness)) es) (length es)
                ≡ value [])
              events_same
              (subst
                (λ b.
                  checkpoint_coverage py p.newest_checkpoint witness b (length r.events) ≡ value [])
                r.found
                (subst
                  (λ n.
                    checkpoint_coverage py p.newest_checkpoint witness p.witness_found n ≡ value [])
                  (omega (arith, r.total)) (covered ∙ ap value none_left)));
      }

  pub verify_lines-valid :
      (py : Python) (witness : Option Event) (codes : List IssueCode) (journal : Option (List Line))
      (result : VerificationResult) (events : List Event)
      → verify_lines c trusted py witness codes journal ≡ value (result, events)
      → result.valid ≡ true
      → IsValid py witness codes journal result events
  unfolding verify_lines
  verify_lines-valid py witness codes none result events h valid =
      absurd (cc (ap (λ r. r.0.valid) (value-inj _ (result, events) h), valid))
  verify_lines-valid py witness codes (some lines) result events h valid =
      let (p, read, rest) =
        bind-value (read_lines c trusted (witness_id py witness) lines (start c trusted codes)) _ _
          h in
      let (coverage, covered, all) =
        bind-value
          (checkpoint_coverage py p.newest_checkpoint witness p.witness_found p.total_events) _ _
          rest in
      conclude-valid py witness codes coverage lines p result events read covered
        (value-inj _ _ all) valid
