-- ===== src/Checkpoint/Verifies.antt =====
-- A checkpoint that src/tesera/checkpoint.py appends verifies under src/tesera/verification.py.
use tesera.Common.{
  ℕ, ◌+◌, Bool, true, false, Option, none, some, [], ◌∷◌, ◌++◌, String, ◌≡◌, refl, ap, ◌∙◌, ◌||◌,
  if◌then◌else◌, length,
}
use tesera.Json.{Event, get, is_str}
use tesera.Verification.{value, ◌>>=◌, Crypto, Python}
use tesera.Verification.Event.{verify_event}
use tesera.Verification.Witness.{object}
use tesera.Verification.Coverage.{checkpoint_coverage}
use tesera.Verification.Journal.{
  VerificationResult, Progress, read_and_verify, verify_lines, read_event, advance, count_line,
  conclude, start,
}
use tesera.Verification.Tamper.{head_from}
use tesera.Journal.Append.{Journal}
use tesera.Engine.{Stamp}
use tesera.Checkpoint.{checkpoint_journal}
use tesera.Checkpoint.Replay.{
  lines_of, with_found, replay, read_lines-snoc, read_lines-head, valid_run,
}
use tesera.Checkpoint.Sealed.{
  checkpoint_event, checkpoint-appends, verify_event-checkpoint, load_checkpoint_witness-checkpoint,
  checkpoint_type, checkpoint_id, witness_id-checkpoint, covered_self,
}

or-true : (b : Bool) → (b || true) ≡ true
or-true true = refl
or-true false = refl

module _ (c : Crypto) where
  -- The result after a checkpoint without issues that is its own witness.
  conclude_event :
      (trusted : String → Option c.PublicKey) (py : Python) (id : String) (event : Event)
      (count : ℕ) (q : Progress) (journal : Journal)
      → is_str "checkpoint" (get "event_type" event) ≡ true
      → is_str id (get "event_id" event) ≡ true
      → checkpoint_coverage py (some event) (some event) true (count + 1) ≡ value []
      → q.issues ≡ []
      → q.events ≡ journal
      → q.events_verified ≡ count
      → q.total_events ≡ count
      → (let r = advance (some id) event [] (count_line q) in
          checkpoint_coverage py r.newest_checkpoint (some event) r.witness_found r.total_events
          >>= λ coverage. value (conclude c trusted coverage r))
        ≡ value (
          record { valid = true; events_verified = count + 1; issues = [] },
          journal ++ event ∷ [],
        )
  unfolding advance
  conclude_event trusted py id event count q journal type same covered clean events verified total =
      let found : (q.witness_found || is_str id (get "event_id" event)) ≡ true =
        ap (λ b. q.witness_found || b) same ∙ or-true q.witness_found in
      let all : checkpoint_coverage py
            (if is_str "checkpoint" (get "event_type" event)
              then some event
              else q.newest_checkpoint)
            (some event) (q.witness_found || is_str id (get "event_id" event)) (q.total_events + 1)
          ≡ value [] =
        rw (type, found, total) covered in
      rw (all, clean, events, verified) refl

  -- The state after the event of the checkpoint, from the state `q` before it.
  module _ (trusted : String → Option c.PublicKey) (py : Python) (stamp : Stamp) (key : c.PublicKey)
      (known : trusted stamp.key_id ≡ some key)
      (signs : (d : String) → c.verify key d (stamp.sign d) ≡ true) where
    read_checkpoint :
        (count : ℕ) (previous_hash : Option String) (q : Progress)
        → q.previous_hash ≡ previous_hash
        → read_event c trusted
            (some stamp.event_id)
            (checkpoint_event c stamp count previous_hash)
            (count_line q)
          ≡ value (
              advance
                (some stamp.event_id)
                (checkpoint_event c stamp count previous_hash)
                []
                (count_line q))
    unfolding read_event advance
    read_checkpoint count previous_hash q e =
        let event = checkpoint_event c stamp count previous_hash in
        let verified : verify_event c trusted q.previous_hash q.checkpoints_by_id event ≡ value [] =
          rw e (
            verify_event-checkpoint c trusted stamp count previous_hash q.checkpoints_by_id key
              known signs) in
        rw verified refl

    -- If the verifier says that a journal of events is valid, a checkpoint appended to it by
    -- `checkpoint_journal` under a trusted key never fails: it leaves the journal with one event more,
    -- which the verifier calls valid, with all events verified, against the event as its witness.
    pub checkpoint_verifies :
        (journal : Journal) (result : VerificationResult)
        → read_and_verify c trusted py none (some (lines_of journal)) ≡ value (result, journal)
        → result.valid ≡ true
        → (event : Event) × (checkpoint_journal c stamp journal
            ≡ value (event, journal ++ event ∷ []))
          × (read_and_verify c trusted py
                (some (object event))
                (some (lines_of (journal ++ event ∷ [])))
              ≡ value (
                record { valid = true; events_verified = length journal + 1; issues = [] },
                journal ++ event ∷ [],
              ))
    unfolding read_and_verify verify_lines checkpoint_journal
    checkpoint_verifies journal result h valid =
        let head = head_from none journal in
        let event = checkpoint_event c stamp (length journal) head in
        let v = valid_run c trusted py journal result h valid in
        let (b, again) =
          replay c trusted none (some stamp.event_id) journal (start c trusted []) v.last false
            v.is_run in
        let q = with_found b v.last in
        let read =
          read_lines-snoc c trusted (some stamp.event_id) journal event (start c trusted []) q again
          ∙ ap (λ m. m >>= λ r. value r)
              (read_checkpoint (length journal) head q
                (read_lines-head c trusted none journal (start c trusted []) v.last v.is_run)) in
        (
          event,
          checkpoint-appends c trusted stamp journal v.is_chain,
          rw
              (
                load_checkpoint_witness-checkpoint c trusted stamp (length journal) head key known
                    signs,
                witness_id-checkpoint c py stamp (length journal) head,
                read,
              )
              (conclude_event trusted py stamp.event_id event (length journal) q journal
                (checkpoint_type c stamp (length journal) head)
                (checkpoint_id c stamp (length journal) head)
                (covered_self c py stamp (length journal) (length journal + 1) head refl) v.is_clean
                v.all_events v.all_verified v.all_counted),
        )
