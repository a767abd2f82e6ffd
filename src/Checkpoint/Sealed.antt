-- ===== src/Checkpoint/Sealed.antt =====
-- The event that src/tesera/checkpoint.py appends, and what src/tesera/verification.py says of it.
use tesera.Common.{
  ℕ, ◌+◌, true, false, Option, none, some, List, [], ◌∷◌, ◌++◌, String, ◌≡◌, refl, arith, length,
  eq_refl, ltb, Option-cases, inl, inr,
}
use tesera.Common.Dict.{Dict}
use tesera.Common.Int.{pos, ltb_ℤ}
use tesera.Json.{Event, get, find, as_str, has, is_str, as_int, obj}
use tesera.Json.Equality.{json_eq}
use tesera.Json.Payload.{finite_fields, unsigned_payload, set}
use tesera.Verification.{value, Crypto, Python, in_set}
use tesera.Verification.Event.{verify_event}
use tesera.Verification.Shape.{lacks_fields, checkpoint_issues}
use tesera.Verification.Witness.{object, is_well_shaped, load_checkpoint_witness}
use tesera.Verification.Coverage.{
  checkpoint_coverage, count_of, to_int, count_lt, effective_issue, truncation_issue,
}
use tesera.Verification.Journal.{witness_id}
use tesera.Verification.Sound.{IsChain}
use tesera.Verification.Tamper.{head_from}
use tesera.Journal.Tail.{hash, hash_of}
use tesera.Journal.Append.{
  Journal, tail_hash, seal, finalize_event, checked_tail, append_checkpoint,
}
use tesera.Engine.{Stamp}
use tesera.Checkpoint.{checkpoint_payload, checkpoint_journal}

not_negative : (n : ℕ) → ltb n 0 ≡ false
not_negative n = ground arith

not_less : (n : ℕ) → ltb_ℤ (pos n) (pos n) ≡ false
not_less n = ground arith

module _ (c : Crypto) where
  -- The event of a checkpoint.
  abbrev pub checkpoint_event : Stamp → ℕ → Option String → Event
  checkpoint_event stamp count previous_hash =
      let payload = checkpoint_payload stamp count previous_hash in
      seal (c.digest payload) (stamp.sign (c.digest payload)) payload

  finalize-checkpoint :
      (stamp : Stamp) (count : ℕ) (previous_hash : Option String)
      → finalize_event c stamp.sign (checkpoint_payload stamp count previous_hash)
        ≡ value (checkpoint_event stamp count previous_hash)
  unfolding finalize_event finite_fields
  finalize-checkpoint stamp count none = refl
  finalize-checkpoint stamp count (some h) = refl

  hash_of-get :
      (event : Event) (d : String)
      → as_str (get "event_hash" event) ≡ some d
      → hash_of (some (obj event)) ≡ hash (as_str (get "event_hash" event))
  unfolding hash_of get
  hash_of-get event d h = elim (Option-cases (find "event_hash" event)) [
    | inl n ↦ absurd (cc (rw (n, get) at h))
    | inr (v, e) ↦ let k : as_str v ≡ some d = rw (e, get) at h in rw (e, k, hash_of, get) refl
  ]

  -- The tail of a chain is its last stored hash.
  tail_hash-chain :
      (trusted : String → Option c.PublicKey) (expected : Option String) (event : Event)
      (events : List Event)
      → IsChain c trusted expected (event ∷ events)
      → tail_hash (event ∷ events) ≡ hash (head_from expected (event ∷ events))
  unfolding tail_hash
  tail_hash-chain trusted expected event [] h = hash_of-get event _ h.0.is_hashed
  tail_hash-chain trusted expected event (next ∷ events) h =
      tail_hash-chain trusted (as_str (get "event_hash" event)) next events h.1

  tail_hash-journal :
      (trusted : String → Option c.PublicKey) (journal : Journal)
      → IsChain c trusted none journal
      → tail_hash journal ≡ hash (head_from none journal)
  tail_hash-journal trusted [] h = unfold tail_hash in refl
  tail_hash-journal trusted (event ∷ events) h = tail_hash-chain trusted none event events h

  pub checkpoint-appends :
      (trusted : String → Option c.PublicKey) (stamp : Stamp) (journal : Journal)
      → IsChain c trusted none journal
      → checkpoint_journal c stamp journal
        ≡ value (
          checkpoint_event stamp (length journal) (head_from none journal),
          journal ++ checkpoint_event stamp (length journal) (head_from none journal) ∷ [],
        )
  unfolding checkpoint_journal append_checkpoint checked_tail
  checkpoint-appends trusted stamp journal h =
      rw
        (
          tail_hash-journal trusted journal h,
          finalize-checkpoint stamp (length journal) (head_from none journal),
        )
        refl

  module _ (trusted : String → Option c.PublicKey) where
    pub verify_event-checkpoint :
        (stamp : Stamp) (count : ℕ) (previous_hash : Option String) (checkpoints : Dict Event)
        (key : c.PublicKey)
        → trusted stamp.key_id ≡ some key
        → ((d : String) → c.verify key d (stamp.sign d) ≡ true)
        → verify_event c trusted previous_hash checkpoints
            (checkpoint_event stamp count previous_hash)
          ≡ value []
    unfolding verify_event in_set is_str as_str get find set has unsigned_payload json_eq
        lacks_fields finite_fields checkpoint_issues as_int
    verify_event-checkpoint stamp count none checkpoints key known signs =
        rw
          (
            not_negative count,
            eq_refl (c.digest (checkpoint_payload stamp count none)),
            known,
            signs (c.digest (checkpoint_payload stamp count none)),
          )
          refl
    verify_event-checkpoint stamp count (some h) checkpoints key known signs =
        rw
          (
            not_negative count,
            eq_refl h,
            eq_refl (c.digest (checkpoint_payload stamp count (some h))),
            known,
            signs (c.digest (checkpoint_payload stamp count (some h))),
          )
          refl

    pub load_checkpoint_witness-checkpoint :
        (stamp : Stamp) (count : ℕ) (previous_hash : Option String) (key : c.PublicKey)
        → trusted stamp.key_id ≡ some key
        → ((d : String) → c.verify key d (stamp.sign d) ≡ true)
        → load_checkpoint_witness c trusted (object (checkpoint_event stamp count previous_hash))
          ≡ value (some (checkpoint_event stamp count previous_hash), [])
    unfolding load_checkpoint_witness is_well_shaped in_set is_str as_str get find set has
        unsigned_payload json_eq finite_fields as_int
    load_checkpoint_witness-checkpoint stamp count none key known signs =
        rw
          (
            not_negative count,
            eq_refl (c.digest (checkpoint_payload stamp count none)),
            known,
            signs (c.digest (checkpoint_payload stamp count none)),
          )
          refl
    load_checkpoint_witness-checkpoint stamp count (some h) key known signs =
        rw
          (
            not_negative count,
            eq_refl h,
            eq_refl (c.digest (checkpoint_payload stamp count (some h))),
            known,
            signs (c.digest (checkpoint_payload stamp count (some h))),
          )
          refl

  pub checkpoint_type :
      (stamp : Stamp) (count : ℕ) (previous_hash : Option String)
      → is_str "checkpoint" (get "event_type" (checkpoint_event stamp count previous_hash)) ≡ true
  unfolding is_str as_str get find set
  checkpoint_type stamp count previous_hash = refl

  pub checkpoint_id :
      (stamp : Stamp) (count : ℕ) (previous_hash : Option String)
      → is_str stamp.event_id (get "event_id" (checkpoint_event stamp count previous_hash)) ≡ true
  unfolding is_str as_str get find set
  checkpoint_id stamp count previous_hash = eq_refl stamp.event_id

  pub witness_id-checkpoint :
      (py : Python) (stamp : Stamp) (count : ℕ) (previous_hash : Option String)
      → witness_id py (some (checkpoint_event stamp count previous_hash)) ≡ some stamp.event_id
  unfolding as_str get find set
  witness_id-checkpoint py stamp count previous_hash = refl

  pub covered_self :
      (py : Python) (stamp : Stamp) (count total : ℕ) (previous_hash : Option String)
      → total ≡ count + 1
      → checkpoint_coverage py
          (some (checkpoint_event stamp count previous_hash))
          (some (checkpoint_event stamp count previous_hash))
          true
          total
        ≡ value []
  unfolding checkpoint_coverage count_of to_int count_lt effective_issue truncation_issue set find
  covered_self py stamp count total previous_hash e =
      let fits : ltb_ℤ (pos total) (pos count) ≡ false = ground arith in
      rw (not_less count, fits) refl
