-- ===== src/Resolution/Recorded.antt =====
-- What `resolve_journal` of src/tesera/resolve.py has established when it appends a resolution.
use tesera.Common.{
  true, false, Option, none, some, Bool-cases, inl, inr, List, [], ◌∷◌, ◌++◌, String, any_of, ◌≡◌,
  refl, ap, sym, ◌∙◌, subst,
}
use tesera.Json.{Json, Event, str, find, get, is_str, is_true}
use tesera.Json.Payload.{set}
use tesera.Verification.{Checked, value, raises, Crypto}
use tesera.Verification.Event.{event_digest}
use tesera.Verification.Facts.{bind-value, value-inj}
use tesera.Journal.Append.{
  Journal, Appended, append_event, finalize_event, seal, tail_hash, checked_tail,
}
use tesera.Engine.{Stamp}
use tesera.Resolution.{
  resolved, is_known, bounded_note, is_decision_of, find_decision, item, resolution_payload,
  build_resolution, after_append, resolve_decision, resolve_journal,
}

-- The decision that an id names is the first of the journal with that id.
pub record IsFound (id : String) (journal : Journal) (decision : Event) : Type 0 where
  pub before : List Event
  pub after : List Event
  pub is_split : journal ≡ before ++ decision ∷ after
  pub is_named : is_decision_of id decision ≡ true
  pub is_first : any_of (is_decision_of id) before ≡ false

find_decision-IsFound :
    (id : String) (journal : Journal) (decision : Event)
    → find_decision id journal ≡ some decision
    → IsFound id journal decision
unfolding find_decision
find_decision-IsFound id [] decision h = absurd (cc h)
find_decision-IsFound id (event ∷ events) decision h = elim (Bool-cases (is_decision_of id event)) [
  | inl y ↦
      let same : event ≡ decision = cc (rw (y, find_decision) at h) in
      subst (IsFound id (event ∷ events)) same
        (record { before = []; after = events; is_split = refl; is_named = y; is_first = refl })
  | inr n ↦
      let f = find_decision-IsFound id events decision (rw (n, find_decision) at h) in
      record {
        before = event ∷ f.before;
        after = f.after;
        is_split = ap (λ l. event ∷ l) f.is_split;
        is_named = f.is_named;
        is_first = rw n f.is_first;
      }
]

-- What the appended event says.
pub record Says (id resolution : String) (event : Event) : Type 0 where
  pub is_resolution : get "event_type" event ≡ str "resolution"
  pub names : get "decision_event_id" event ≡ str id
  pub gives : get "resolution" event ≡ str resolution

module _ (c : Crypto) (stamp : Stamp) where
  seal-Says :
      (digest signature id resolution note : String) (a n h : Json) (previous_hash : Option String)
      → Says id resolution
          (seal digest signature (resolution_payload stamp a n h previous_hash id resolution note))
  unfolding get find set
  seal-Says digest signature id resolution note a n h previous_hash = record {
    is_resolution = refl;
    names = refl;
    gives = refl;
  }

  finalize_event-seal :
      (payload event : Event)
      → finalize_event c stamp.sign payload ≡ value event
      → (digest : String) × (seal digest (stamp.sign digest) payload ≡ event)
  unfolding finalize_event set
  finalize_event-seal payload event h =
      let (digest, _, e) =
        bind-value (event_digest c payload)
          (λ digest. value (seal digest (stamp.sign digest) payload)) event h in
      (digest, value-inj _ event e)

  build_resolution-Says :
      (decision : Event) (id resolution note : String) (previous_hash : Option String)
      (event : Event)
      → build_resolution c stamp decision id resolution note previous_hash ≡ value event
      → Says id resolution event
  unfolding build_resolution
  build_resolution-Says decision id resolution note previous_hash event h =
      let (a, _, h1) = bind-value (item "action_id" decision) _ event h in
      let (n, _, h2) = bind-value (item "action_name" decision) _ event h1 in
      let (k, _, h3) =
        bind-value (item "contract_hash" decision)
          (λ k.
            finalize_event c stamp.sign
              (resolution_payload stamp a n k previous_hash id resolution note))
          event h2 in
      let (digest, e) = finalize_event-seal _ event h3 in
      subst (Says id resolution) e
        (seal-Says digest (stamp.sign digest) id resolution note a n k previous_hash)

  append_event-builds :
      (journal : Journal) (build : Option String → Checked Event) (event : Event)
      (journal' : Journal)
      → append_event journal build ≡ value (event, journal')
      → (h : Option String) × (build h ≡ value event) × (journal' ≡ journal ++ event ∷ [])
  unfolding append_event
  append_event-builds journal build event journal' h =
      let (hash, _, h1) = bind-value (checked_tail (tail_hash journal)) _ (event, journal') h in
      let (made, e, h2) =
        bind-value (build hash) (λ made. value (made, journal ++ made ∷ [])) (event, journal') h1 in
      let same = value-inj (made, journal ++ made ∷ []) (event, journal') h2 in
      (
        hash,
        e ∙ ap (λ p. value p.0) same,
        sym (ap (λ p. p.1) same) ∙ ap (λ p. journal ++ p.0 ∷ []) same,
      )

  after_append-resolved :
      (m : Appended) (event : Event) (journal' : Journal)
      → after_append c stamp m ≡ resolved event journal'
      → m ≡ value (event, journal')
  after_append-resolved (raises e) event journal' h = absurd (cc h)
  after_append-resolved (value (made, grown)) event journal' h = cc h

  -- What is known of the decision and of the journal after it.
  pub record IsResolved (id resolution : String) (journal : Journal) (event : Event)
      (journal' : Journal) : Type 0 where
    pub decision : Event
    pub is_found : IsFound id journal decision
    pub was_allowed : is_str "allowed" (get "decision" decision) ≡ true
    pub was_run : is_true (get "dry_run" decision) ≡ false
    pub says : Says id resolution event
    pub is_appended : journal' ≡ journal ++ event ∷ []

  resolve_decision-IsResolved :
      (id resolution note : String) (journal : Journal) (o : Option Event) (event : Event)
      (journal' : Journal)
      → find_decision id journal ≡ o
      → resolve_decision c stamp id resolution note journal o ≡ resolved event journal'
      → IsResolved id resolution journal event journal'
  unfolding resolve_decision
  resolve_decision-IsResolved id resolution note journal none event journal' found h = absurd (cc h)
  resolve_decision-IsResolved id resolution note journal (some decision) event journal' found h =
      elim (Bool-cases (is_str "allowed" (get "decision" decision))) [
        | inr n ↦ absurd (cc (rw (n, resolve_decision) at h))
        | inl y ↦ elim (Bool-cases (is_true (get "dry_run" decision))) [
          | inl d ↦ absurd (cc (rw (y, d, resolve_decision) at h))
          | inr r ↦
              let (hash, built, grown) =
                append_event-builds journal
                  (build_resolution c stamp decision id resolution (bounded_note note)) event
                  journal'
                  (after_append-resolved _ event journal' (rw (y, r, resolve_decision) at h)) in
              record {
                decision = decision;
                is_found = find_decision-IsFound id journal decision found;
                was_allowed = y;
                was_run = r;
                says =
                    build_resolution-Says decision id resolution (bounded_note note) hash event
                      built;
                is_appended = grown;
              }
        ]
      ]

  -- If a resolution is recorded, then it is one of the two known ones, the id names a decision of
  -- the journal, of which the first was allowed and was no dry run, and the journal is the old one
  -- with one more event behind it: a resolution that names this decision and gives the resolution.
  pub resolve_journal-IsResolved :
      (id resolution note : String) (journal : Journal) (event : Event) (journal' : Journal)
      → resolve_journal c stamp id resolution note journal ≡ resolved event journal'
      → (is_known resolution ≡ true) × IsResolved id resolution journal event journal'
  unfolding resolve_journal
  resolve_journal-IsResolved id resolution note journal event journal' h =
      elim (Bool-cases (is_known resolution)) [
        | inr n ↦ absurd (cc (rw (n, resolve_journal) at h))
        | inl y ↦ (
          y,
          resolve_decision-IsResolved id resolution note journal (find_decision id journal) event
              journal' refl (rw (y, resolve_journal) at h),
        )
      ]
