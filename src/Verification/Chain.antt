-- ===== src/Verification/Chain.antt =====
-- What an event without issues is: `_verify_event` of src/tesera/verification.py.
use tesera.Common.{
  Bool, true, false, Option, some, [], ◌∷◌, ◌++◌, String, ◌≡◌, refl, not, if◌then◌else◌, Bool-cases,
  Option-cases, inl, inr,
}
use tesera.Common.Dict.{Dict}
use tesera.Json.{Event, get, as_str, is_str, is_str→as_str}
use tesera.Json.Payload.{finite_fields, unsigned_payload}
use tesera.Verification.{
  value, ◌>>=◌, Crypto, in_set, issue_if, unknown_event_type, unknown_schema, chain_break,
  hash_mismatch, bad_signature,
}
use tesera.Verification.Event.{
  is_previous, event_digest, is_signed_by, signer_of, signature_issues, seal_issues, body_issues,
  shape_issues, verify_event, known_schema_versions, known_event_types,
}
use tesera.Verification.Shape.{lacks_fields}
use tesera.Verification.Facts.{bind-value, value-inj, append-empty, issue_if-none}

-- The event has all the fields that its type requires, its link is the hash expected, its hash is
-- the digest of its payload, and its signature is one of that digest under a trusted key.
pub record IsSealed (c : Crypto) (trusted : String → Option c.PublicKey) (expected : Option String)
    (event : Event) : Type 0 where
  pub is_complete : lacks_fields event ≡ false
  pub is_linked : is_previous expected (get "previous_event_hash" event) ≡ true
  pub is_finite : finite_fields (unsigned_payload event) ≡ true
  pub is_hashed : as_str (get "event_hash" event) ≡ some (c.digest (unsigned_payload event))
  pub signer : c.PublicKey
  pub is_trusted : signer_of c trusted (as_str (get "key_id" event)) ≡ some signer
  pub is_signed :
      is_signed_by c (c.digest (unsigned_payload event)) (as_str (get "signature" event)) signer
      ≡ true

not-false : (b : Bool) → not b ≡ false → b ≡ true
not-false true h = refl
not-false false h = absurd (cc h)

module _ (c : Crypto) where
  pub event_digest-value :
      (payload : Event) (d : String)
      → event_digest c payload ≡ value d
      → (finite_fields payload ≡ true) × (c.digest payload ≡ d)
  unfolding event_digest
  event_digest-value payload d h = elim (Bool-cases (finite_fields payload)) [
    | inl y ↦ (y, value-inj (c.digest payload) d (rw y at h))
    | inr n ↦ absurd (cc (rw n at h))
  ]

module _ (c : Crypto) (trusted : String → Option c.PublicKey) where
  signature_issues-none :
      (d : String) (event : Event)
      → signature_issues c trusted d event ≡ []
      → (key : c.PublicKey) × (signer_of c trusted (as_str (get "key_id" event)) ≡ some key)
        × (is_signed_by c d (as_str (get "signature" event)) key ≡ true)
  unfolding signature_issues
  signature_issues-none d event h =
      elim (Option-cases (signer_of c trusted (as_str (get "key_id" event)))) [
        | inl n ↦ absurd (cc (rw (n, signature_issues) at h))
        | inr (key, e) ↦ (
          key,
          e,
          not-false (is_signed_by c d (as_str (get "signature" event)) key) (
              issue_if-none (not (is_signed_by c d (as_str (get "signature" event)) key))
                bad_signature (rw (e, signature_issues) at h)),
        )
      ]

  seal_issues-none :
      (expected : Option String) (event : Event)
      → lacks_fields event ≡ false
      → seal_issues c trusted expected event ≡ value []
      → IsSealed c trusted expected event
  unfolding seal_issues
  seal_issues-none expected event complete h =
      let (d, digested, rest) =
        bind-value (event_digest c (unsigned_payload event))
          (λ d. value (
            issue_if (not (is_previous expected (get "previous_event_hash" event))) chain_break
            ++ (issue_if (not (is_str d (get "event_hash" event))) hash_mismatch
                ++ signature_issues c trusted d event)))
          [] h in
      let (finite, same) = event_digest-value c (unsigned_payload event) d digested in
      let (link, more) = append-empty _ _ (value-inj _ _ rest) in
      let (hashed, signed) = append-empty _ _ more in
      let (key, known, ok) = signature_issues-none d event signed in
      record {
        is_complete = complete;
        is_linked = not-false _ (issue_if-none _ chain_break link);
        is_finite = finite;
        is_hashed = rw same (
            is_str→as_str d (get "event_hash" event)
              (not-false _ (issue_if-none _ hash_mismatch hashed)));
        signer = key;
        is_trusted = known;
        is_signed = rw same ok;
      }

  body_issues-none :
      (expected : Option String) (checkpoints : Dict Event) (event : Event)
      → body_issues c trusted expected checkpoints event ≡ value []
      → IsSealed c trusted expected event
  unfolding body_issues
  body_issues-none expected checkpoints event h = elim (Bool-cases (lacks_fields event)) [
    | inl y ↦ absurd (cc (value-inj _ _ (rw y at h)))
    | inr n ↦
        let (shape, _, more) = bind-value (shape_issues checkpoints event) _ [] (rw n at h) in
        let (seal, sealed, all) = bind-value (seal_issues c trusted expected event) _ [] more in
        let (_, none_left) = append-empty shape seal (value-inj _ _ all) in
        seal_issues-none expected event n (rw none_left at sealed)
  ]

  -- An event without issues is sealed.
  pub verify_event-none :
      (expected : Option String) (checkpoints : Dict Event) (event : Event)
      → verify_event c trusted expected checkpoints event ≡ value []
      → IsSealed c trusted expected event
  unfolding verify_event
  verify_event-none expected checkpoints event h =
      let (schema, _, more) =
        bind-value (in_set known_schema_versions (get "schema_version" event)) _ [] h in
      known_case schema more
    where
      typed_case :
          (b : Bool)
          → (if b
              then body_issues c trusted expected checkpoints event
              else value (unknown_event_type ∷ []))
            ≡ value []
          → IsSealed c trusted expected event
      typed_case true k = body_issues-none expected checkpoints event k
      typed_case false k = absurd (cc (value-inj _ _ k))

      known_case :
          (b : Bool)
          → (if b
              then (in_set known_event_types (get "event_type" event) >>= λ t.
                  if t
                  then body_issues c trusted expected checkpoints event
                  else value (unknown_event_type ∷ []))
              else value (unknown_schema ∷ []))
            ≡ value []
          → IsSealed c trusted expected event
      known_case true k =
          let (t, _, rest) =
            bind-value (in_set known_event_types (get "event_type" event)) _ [] k in
          typed_case t rest
      known_case false k = absurd (cc (value-inj _ _ k))
