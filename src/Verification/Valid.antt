-- ===== src/Verification/Valid.antt =====
-- What `verify_journal` of src/tesera/verification.py promises when it says that a journal is
-- valid: the chain of the whole journal, and its coverage by a checkpoint witness.
use tesera.Common.{true, Option, none, some, List, [], String, ◌≡◌, ap, subst, ◌∙◌, length, any_of}
use tesera.Json.{Event, get}
use tesera.Verification.{IssueCode, value, Crypto, Python}
use tesera.Verification.Witness.{Line, Loaded, object, load_checkpoint_witness}
use tesera.Verification.Coverage.{checkpoint_coverage}
use tesera.Verification.Journal.{
  VerificationResult, read_and_verify, is_witness, witness_id, text_of,
}
use tesera.Verification.Facts.{bind-value}
use tesera.Verification.Covered.{Covers, checkpoint_coverage-none}
use tesera.Verification.Loaded.{IsWitness, load_checkpoint_witness-clean}
use tesera.Verification.Sound.{objects, IsChain, IsValid, verify_lines-valid}

module _ (c : Crypto) (trusted : String → Option c.PublicKey) where
  -- What `verify_journal` is to establish of a journal: it could be read, its lines are blank or
  -- hold the events, and these form one chain from the first event.
  pub record HasChain (journal : Option (List Line)) (events : List Event) : Type 0 where
    pub lines : List Line
    pub is_read : journal ≡ some lines
    pub are_objects : objects lines ≡ some events
    pub is_chain : IsChain c trusted none events

  read_and_verify-valid :
      (py : Python) (file : Option Line) (journal : Option (List Line))
      (result : VerificationResult) (events : List Event)
      → read_and_verify c trusted py file journal ≡ value (result, events)
      → result.valid ≡ true
      → (witness : Option Event) × IsValid c trusted py witness [] journal result events
  unfolding read_and_verify
  read_and_verify-valid py none journal result events h valid =
      (none, verify_lines-valid c trusted py none [] journal result events h valid)
  read_and_verify-valid py (some file) journal result events h valid =
      let (loaded, _, rest) = bind-value (load_checkpoint_witness c trusted file) _ _ h in
      let v = verify_lines-valid c trusted py loaded.0 loaded.1 journal result events rest valid in
      (loaded.0, subst_codes loaded.0 loaded.1 v v.no_codes)
    where
      subst_codes :
          (w : Option Event) (codes : List IssueCode)
          → IsValid c trusted py w codes journal result events
          → codes ≡ []
          → IsValid c trusted py w [] journal result events
      subst_codes w codes v e =
          subst (λ codes. IsValid c trusted py w codes journal result events) e v

  -- If the verifier says that a journal is valid, with or without a witness, then the journal was
  -- read to its end, every line is blank or an event, all of them are counted as verified, and the
  -- events form one hash chain: each has its required fields, the stored hash of its predecessor
  -- (null for the first), the digest of its own payload, and a signature by a trusted key.
  pub valid_chain :
      (py : Python) (file : Option Line) (journal : Option (List Line))
      (result : VerificationResult) (events : List Event)
      → read_and_verify c trusted py file journal ≡ value (result, events)
      → result.valid ≡ true
      → HasChain journal events × (result.events_verified ≡ length events)
  valid_chain py file journal result events h valid =
      let (witness, v) = read_and_verify-valid py file journal result events h valid in
      (
        record {
          lines = v.lines;
          is_read = v.is_read;
          are_objects = v.are_objects;
          is_chain = v.is_chain;
        },
        v.all_verified,
      )

  -- What a checkpoint witness proves of a valid journal: it is signed, its event is in the
  -- journal, and the journal has at least as many events as it counts.
  pub record HasWitness (py : Python) (file : Line) (events : List Event) : Type 0 where
    pub witness : Event
    pub is_object : file ≡ object witness
    pub is_witness_event : IsWitness c trusted witness
    pub is_present : any_of (is_witness (some (text_of py (get "event_id" witness)))) events ≡ true
    pub covers : Covers py (length events) witness

  witness_case :
      (py : Python) (file : Line) (journal : Option (List Line)) (result : VerificationResult)
      (events : List Event) (loaded : Loaded)
      → load_checkpoint_witness c trusted file ≡ value loaded
      → IsValid c trusted py loaded.0 loaded.1 journal result events
      → HasWitness py file events
  witness_case py file journal result events (w, codes) h v =
      let (witness, same, is_file, ok) =
        load_checkpoint_witness-clean c trusted file w
          (h ∙ ap (λ codes. value (w, codes)) v.no_codes) in
      let covered =
        subst
          (λ w.
            checkpoint_coverage py v.newest w (any_of (is_witness (witness_id py w)) events)
              (length events)
            ≡ value [])
          same v.covered in
      let (found, covers) =
        checkpoint_coverage-none py v.newest witness _ (length events) covered in
      record {
        witness = witness;
        is_object = is_file;
        is_witness_event = ok;
        is_present = found;
        covers = covers;
      }

  -- If the verifier says that a journal is valid against a witness file, then that file holds a
  -- checkpoint whose hash is the digest of its payload and which a trusted key signed, an event with
  -- the id of that checkpoint is in the journal, and the journal has at least as many events as the
  -- checkpoint counts: a journal whose tail was cut off below the witness is never valid.
  pub valid_covers_witness :
      (py : Python) (file : Line) (journal : Option (List Line)) (result : VerificationResult)
      (events : List Event)
      → read_and_verify c trusted py (some file) journal ≡ value (result, events)
      → result.valid ≡ true
      → HasWitness py file events
  unfolding read_and_verify
  valid_covers_witness py file journal result events h valid =
      let (loaded, e, rest) = bind-value (load_checkpoint_witness c trusted file) _ _ h in
      witness_case py file journal result events loaded e
        (verify_lines-valid c trusted py loaded.0 loaded.1 journal result events rest valid)
