-- ===== src/Verification/Loaded.antt =====
-- A checkpoint witness that `_load_checkpoint_witness` of src/tesera/verification.py accepts.
use tesera.Common.{
  Bool, true, false, Option, some, [], String, ◌≡◌, refl, ap, sym, ◌∙◌, if◌then◌else◌, Bool-cases,
  inl, inr, Option-cases,
}
use tesera.Json.{Event, get, as_str, is_str, is_str→as_str}
use tesera.Json.Payload.{unsigned_payload}
use tesera.Verification.{value, Crypto, in_set}
use tesera.Verification.Event.{event_digest, signer_of, is_signed_by, known_schema_versions}
use tesera.Verification.Witness.{
  Line, invalid, blank, bad_json, not_object, io_error, object, is_well_shaped, check_seal,
  check_witness, load_checkpoint_witness,
}
use tesera.Verification.Facts.{bind-value, value-inj}
use tesera.Verification.Chain.{event_digest-value}

module _ (c : Crypto) (trusted : String → Option c.PublicKey) where
  -- What makes a file's object a witness: a checkpoint whose hash is the digest of its payload,
  -- which is signed by a trusted key.
  pub record IsWitness (witness : Event) : Type 0 where
    pub is_checkpoint : is_str "checkpoint" (get "event_type" witness) ≡ true
    pub is_hashed : as_str (get "event_hash" witness) ≡ some (c.digest (unsigned_payload witness))
    pub signer : c.PublicKey
    pub is_trusted : signer_of c trusted (as_str (get "key_id" witness)) ≡ some signer
    pub is_signed :
        is_signed_by c
          (c.digest (unsigned_payload witness))
          (as_str (get "signature" witness))
          signer
        ≡ true

  is_well_shaped-type :
      (event : Event)
      → is_well_shaped event ≡ true
      → is_str "checkpoint" (get "event_type" event) ≡ true
  unfolding is_well_shaped
  is_well_shaped-type event h = elim (Bool-cases (is_str "checkpoint" (get "event_type" event))) [
    | inl y ↦ y
    | inr n ↦ absurd (cc (rw (n, is_well_shaped) at h))
  ]

  seal_case :
      (event : Event) (w : Option Event)
      → is_str "checkpoint" (get "event_type" event) ≡ true
      → check_seal c trusted event ≡ value (w, [])
      → (w ≡ some event) × IsWitness event
  unfolding check_seal
  seal_case event w checkpoint h =
      let (d, digested, r) = bind-value (event_digest c (unsigned_payload event)) _ _ h in
      let (_, same) = event_digest-value c (unsigned_payload event) d digested in
      elim (Bool-cases (is_str d (get "event_hash" event))) [
        | inr n ↦ absurd (cc (value-inj _ _ (rw n at r)))
        | inl y ↦ elim (Option-cases (signer_of c trusted (as_str (get "key_id" event)))) [
          | inl n ↦ absurd (cc (value-inj _ _ (rw (y, n) at r)))
          | inr (key, k) ↦
              elim (Bool-cases (is_signed_by c d (as_str (get "signature" event)) key)) [
                | inr n ↦ absurd (cc (value-inj _ _ (rw (y, k, n) at r)))
                | inl s ↦ (
                  ap (λ l. l.0) (sym (value-inj _ _ (rw (y, k, s) at r))),
                  record {
                    is_checkpoint = checkpoint;
                    is_hashed = is_str→as_str d (get "event_hash" event) y ∙ ap some (sym same);
                    signer = key;
                    is_trusted = k;
                    is_signed = rw same s;
                  },
                )
              ]
        ]
      ]

  IsWitness-case :
      (event : Event) (w : Option Event)
      → check_witness c trusted event ≡ value (w, [])
      → (w ≡ some event) × IsWitness event
  unfolding check_witness
  IsWitness-case event w h =
      let (known, _, r) =
        bind-value (in_set known_schema_versions (get "schema_version" event)) _ _ h in
      known_case known r
    where
      known_case :
          (known : Bool)
          → (if known
              then (if is_well_shaped event then check_seal c trusted event else value invalid)
              else value invalid)
            ≡ value (w, [])
          → (w ≡ some event) × IsWitness event
      known_case false k = absurd (cc (value-inj _ _ k))
      known_case true k = elim (Bool-cases (is_well_shaped event)) [
        | inl y ↦ seal_case event w (is_well_shaped-type event y) (rw y at k)
        | inr n ↦ absurd (cc (value-inj _ _ (rw n at k)))
      ]

  -- A witness that loads without an issue.
  pub load_checkpoint_witness-clean :
      (file : Line) (w : Option Event)
      → load_checkpoint_witness c trusted file ≡ value (w, [])
      → (event : Event) × (w ≡ some event) × (file ≡ object event) × IsWitness event
  unfolding load_checkpoint_witness
  load_checkpoint_witness-clean (object event) w h =
      let (same, ok) = IsWitness-case event w h in (event, same, refl, ok)
  load_checkpoint_witness-clean io_error w h = absurd (cc (value-inj _ _ h))
  load_checkpoint_witness-clean blank w h = absurd (cc (value-inj _ _ h))
  load_checkpoint_witness-clean bad_json w h = absurd (cc (value-inj _ _ h))
  load_checkpoint_witness-clean not_object w h = absurd (cc (value-inj _ _ h))
