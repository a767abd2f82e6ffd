-- ===== src/Checkpoint/Replay.antt =====
-- Reading a journal of events a second time with src/tesera/verification.py, with another witness
-- and with an event more.
use tesera.Common.{
  Bool, true, Option, none, some, List, [], ◌∷◌, ◌++◌, String, ◌≡◌, ap, sym, subst, ◌∙◌, arith,
  length, map, ◌||◌,
}
use tesera.Json.{Event}
use tesera.Verification.{value, ◌>>=◌, Crypto, Python}
use tesera.Verification.Event.{verify_event}
use tesera.Verification.Witness.{Line, object}
use tesera.Verification.Journal.{
  VerificationResult, Progress, advance, count_line, read_event, read_lines, is_witness, start,
  conclude, at_line, verify_lines, read_and_verify,
}
use tesera.Verification.Facts.{bind-value, value-inj, append-empty, is_empty-true}
use tesera.Verification.Tamper.{head_from}
use tesera.Verification.Coverage.{checkpoint_coverage}
use tesera.Verification.Sound.{IsChain, read_lines-clean}

-- The lines of a journal of events.
abbrev pub lines_of : List Event → List Line
lines_of events = map object events

abbrev pub with_found : Bool → Progress → Progress
with_found b p = record p { witness_found = b }

module _ (c : Crypto) (trusted : String → Option c.PublicKey) where
  -- The witness that is looked for has no effect but on whether it is found.
  pub replay :
      (w w' : Option String) (events : List Event) (p q : Progress) (b : Bool)
      → read_lines c trusted w (lines_of events) p ≡ value q
      → (b' : Bool) × (read_lines c trusted w' (lines_of events) (with_found b p)
          ≡ value (with_found b' q))
  unfolding read_lines read_event advance
  replay w w' [] p q b h = (b, ap (λ p. value (with_found b p)) (value-inj p q h))
  replay w w' (event ∷ events) p q b h =
      let (m, first, rest) = bind-value (read_event c trusted w event (count_line p)) _ q h in
      let (codes, verified, r) =
        bind-value (verify_event c trusted p.previous_hash p.checkpoints_by_id event) _ m first in
      let found = b || is_witness w' event in
      let (b', again) = replay w w' events m q found rest in
      let same = value-inj _ m r in
      (
        b',
        rw (verified, read_event)
            (ap (λ m. read_lines c trusted w' (lines_of events) (with_found found m)) same ∙ again),
      )

  -- One more event at the end.
  pub read_lines-snoc :
      (w : Option String) (events : List Event) (event : Event) (p q : Progress)
      → read_lines c trusted w (lines_of events) p ≡ value q
      → read_lines c trusted w (lines_of (events ++ event ∷ [])) p
        ≡ read_event c trusted w event (count_line q) >>= λ r. value r
  unfolding read_lines
  read_lines-snoc w [] event p q h =
      ap (λ p. read_event c trusted w event (count_line p) >>= λ r. value r) (value-inj p q h)
  read_lines-snoc w (e ∷ es) event p q h =
      let (m, first, rest) = bind-value (read_event c trusted w e (count_line p)) _ q h in
      rw first (read_lines-snoc w es event m q rest)

  -- The hash that the next event has to link to.
  pub read_lines-head :
      (w : Option String) (events : List Event) (p q : Progress)
      → read_lines c trusted w (lines_of events) p ≡ value q
      → q.previous_hash ≡ head_from p.previous_hash events
  unfolding read_lines read_event advance
  read_lines-head w [] p q h = ap (λ p. p.previous_hash) (sym (value-inj p q h))
  read_lines-head w (e ∷ es) p q h =
      let (m, first, rest) = bind-value (read_event c trusted w e (count_line p)) _ q h in
      let (codes, _, r) =
        bind-value (verify_event c trusted p.previous_hash p.checkpoints_by_id e) _ m first in
      read_lines-head w es m q rest ∙ ap (λ m. head_from m.previous_hash es) (sym (value-inj _ m r))

  -- The run behind a valid result of a journal of events.
  pub record ValidRun (journal : List Event) : Type 0 where
    pub last : Progress
    pub is_run : read_lines c trusted none (lines_of journal) (start c trusted []) ≡ value last
    pub is_clean : last.issues ≡ []
    pub all_events : last.events ≡ journal
    pub all_verified : last.events_verified ≡ length journal
    pub all_counted : last.total_events ≡ length journal
    pub is_chain : IsChain c trusted none journal

  pub valid_run :
      (py : Python) (journal : List Event) (result : VerificationResult)
      → read_and_verify c trusted py none (some (lines_of journal)) ≡ value (result, journal)
      → result.valid ≡ true
      → ValidRun journal
  unfolding read_and_verify verify_lines
  valid_run py journal result h valid =
      let (q, read, rest) =
        bind-value (read_lines c trusted none (lines_of journal) (start c trusted [])) _ _ h in
      let (coverage, _, all) =
        bind-value (checkpoint_coverage py q.newest_checkpoint none q.witness_found q.total_events)
          _ _ rest in
      let same = value-inj (conclude c trusted coverage q) (result, journal) all in
      let (clean, _) =
        append-empty q.issues (at_line 0 coverage)
          (is_empty-true _ (ap (λ r. r.0.valid) same ∙ valid)) in
      let r =
        read_lines-clean c trusted none (lines_of journal) (start c trusted []) q read clean in
      let events = ap (λ r. r.1) same in
      let same_events = sym r.kept ∙ events in
      record {
        last = q;
        is_run = read;
        is_clean = clean;
        all_events = events;
        all_verified = omega (arith, r.verified, ap length same_events);
        all_counted = omega (arith, r.total, ap length same_events);
        is_chain = subst (λ es. IsChain c trusted none es) same_events r.is_chain;
      }
