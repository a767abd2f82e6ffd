-- ===== src/Verification/Tamper.antt =====
-- Tamper evidence of the hash chain that src/tesera/verification.py checks.
use tesera.Common.{
  true, Option, none, some, List, [], ◌∷◌, ◌++◌, String, ◌≡◌, refl, ap, sym, subst, ◌∙◌, All,
  All-map, map,
}
use mathlib.Core.List.{append-nil}
use tesera.Json.{
  Json, Event, null, bool, int, float, nan, infinity, str, arr, obj, get, as_str, is_str,
  is_str→as_str,
}
use tesera.Json.Payload.{unsigned_payload, find-unsigned_payload}
use tesera.Verification.{Crypto, Python, value}
use tesera.Verification.Event.{is_previous}
use tesera.Verification.Witness.{Line}
use tesera.Verification.Journal.{VerificationResult, read_and_verify}
use tesera.Verification.Chain.{IsSealed}
use tesera.Verification.Sound.{IsChain}
use tesera.Verification.Valid.{valid_chain}

-- The stored hash of the last event, or the hash given if there is none.
abbrev pub head_from : Option String → List Event → Option String
head_from h [] = h
head_from h (event ∷ events) = head_from (as_str (get "event_hash" event)) events

-- The events in reverse, in front of those given.
reverse_onto {ℓ} : {A : Type ℓ} → List A → List A → List A
reverse_onto acc [] = acc
reverse_onto acc (x ∷ xs) = reverse_onto (x ∷ acc) xs

-- The stored hash of the newest event, on a list with the newest first.
abbrev newest_hash : List Event → Option String
newest_hash [] = none
newest_hash (event ∷ _) = as_str (get "event_hash" event)

-- Two payloads have the same digest only if they are the same.
abbrev pub Differ : Crypto → Event → Event → Type 0
Differ c x y =
    c.digest (unsigned_payload x) ≡ c.digest (unsigned_payload y)
    → unsigned_payload x ≡ unsigned_payload y

-- The same of each payload of one journal with each of the other.
abbrev pub NoCollision : Crypto → List Event → List Event → Type 0
NoCollision c xs ys = All (λ x. All (Differ c x) ys) xs

All-reverse_onto {κ} :
    (P : Event → Type κ) (acc xs : List Event) → All P acc → All P xs → All P (reverse_onto acc xs)
unfolding reverse_onto
All-reverse_onto P acc [] h k = h
All-reverse_onto P acc (x ∷ xs) h k = All-reverse_onto P (x ∷ acc) xs (k.0, h) k.1

map-reverse_onto :
    (acc xs : List Event)
    → map unsigned_payload (reverse_onto acc xs)
      ≡ reverse_onto (map unsigned_payload acc) (map unsigned_payload xs)
unfolding reverse_onto
map-reverse_onto acc [] = refl
map-reverse_onto acc (x ∷ xs) = map-reverse_onto (x ∷ acc) xs

reverse_onto-reverse_onto {ℓ} :
    {A : Type ℓ} (acc xs ys : List A)
    → reverse_onto acc (reverse_onto ys xs) ≡ reverse_onto (xs ++ acc) ys
unfolding reverse_onto
reverse_onto-reverse_onto acc [] ys = refl
reverse_onto-reverse_onto acc (x ∷ xs) ys = reverse_onto-reverse_onto acc xs (x ∷ ys)

reversed_twice {ℓ} : {A : Type ℓ} (xs : List A) → reverse_onto [] (reverse_onto [] xs) ≡ xs
unfolding reverse_onto
reversed_twice xs = reverse_onto-reverse_onto [] xs [] ∙ append-nil xs

reversed_again :
    (xs ys : List Event)
    → map unsigned_payload (reverse_onto [] xs) ≡ map unsigned_payload (reverse_onto [] ys)
    → map unsigned_payload xs ≡ map unsigned_payload ys
reversed_again xs ys e =
    sym (reversed_twice (map unsigned_payload xs))
    ∙ ap (λ l. reverse_onto [] l) (sym (map-reverse_onto [] xs) ∙ e ∙ map-reverse_onto [] ys)
    ∙ reversed_twice (map unsigned_payload ys)

-- What a link says of the hash that the payload records.
abbrev previous_of : Event → Json
previous_of event = get "previous_event_hash" (unsigned_payload event)

previous_of-get : (event : Event) → previous_of event ≡ get "previous_event_hash" event
unfolding get
previous_of-get event =
    ap (λ o. elim o [ none ↦ null | some v ↦ v ])
      (find-unsigned_payload "previous_event_hash" event)

is_previous-none : (v : Json) → is_previous none v ≡ true → v ≡ null
unfolding is_previous
is_previous-none null h = refl
is_previous-none (bool b) h = absurd (cc h)
is_previous-none (int n) h = absurd (cc h)
is_previous-none (float n d) h = absurd (cc h)
is_previous-none (nan) h = absurd (cc h)
is_previous-none (infinity b) h = absurd (cc h)
is_previous-none (str s) h = absurd (cc h)
is_previous-none (arr xs) h = absurd (cc h)
is_previous-none (obj fs) h = absurd (cc h)

-- A link determines the hash that it expects.
pub is_previous-determines :
    (g h : Option String) (v : Json) → is_previous g v ≡ true → is_previous h v ≡ true → g ≡ h
unfolding is_previous is_str
is_previous-determines none none v p q = refl
is_previous-determines none (some h) v p q =
    absurd (cc (subst (λ v. is_str h v ≡ true) (is_previous-none v p) q))
is_previous-determines (some g) none v p q =
    absurd (cc (subst (λ v. is_str g v ≡ true) (is_previous-none v q) p))
is_previous-determines (some g) (some h) v p q = sym (is_str→as_str g v p) ∙ is_str→as_str h v q

module _ (c : Crypto) where
  -- A chain with the newest event first.
  NewestFirst : (String → Option c.PublicKey) → List Event → Type 0
  NewestFirst trusted [] = Unit
  NewestFirst trusted (event ∷ events) =
      IsSealed c trusted (newest_hash events) event × NewestFirst trusted events

  newest_first :
      (trusted : String → Option c.PublicKey) (acc events : List Event)
      → NewestFirst trusted acc
      → IsChain c trusted (newest_hash acc) events
      → NewestFirst trusted (reverse_onto acc events)
  unfolding reverse_onto NewestFirst
  newest_first trusted acc [] h k = h
  newest_first trusted acc (x ∷ xs) h k = newest_first trusted (x ∷ acc) xs (k.0, h) k.1

newest_hash-reverse_onto :
    (acc events : List Event)
    → newest_hash (reverse_onto acc events) ≡ head_from (newest_hash acc) events
unfolding reverse_onto
newest_hash-reverse_onto acc [] = refl
newest_hash-reverse_onto acc (x ∷ xs) = newest_hash-reverse_onto (x ∷ acc) xs

module _ (c : Crypto) (trusted trusted' : String → Option c.PublicKey) where
  -- Two sealed events with the same stored hash have the same payload and the same link.
  same_payload :
      (g h : Option String) (x y : Event)
      → IsSealed c trusted g x
      → IsSealed c trusted' h y
      → Differ c x y
      → as_str (get "event_hash" x) ≡ as_str (get "event_hash" y)
      → (unsigned_payload x ≡ unsigned_payload y) × (g ≡ h)
  same_payload g h x y s t differ e =
      let same = differ (cc (sym s.is_hashed ∙ e ∙ t.is_hashed)) in
      let link =
        sym (previous_of-get x) ∙ ap (λ p. get "previous_event_hash" p) same ∙ previous_of-get y in
      (
        same,
        is_previous-determines g h (get "previous_event_hash" y)
            (subst (λ v. is_previous g v ≡ true) link s.is_linked) t.is_linked,
      )

  same_payloads :
      (xs ys : List Event)
      → NewestFirst c trusted xs
      → NewestFirst c trusted' ys
      → NoCollision c xs ys
      → newest_hash xs ≡ newest_hash ys
      → map unsigned_payload xs ≡ map unsigned_payload ys
  unfolding NewestFirst
  same_payloads [] [] s t n e = refl
  same_payloads [] (y ∷ ys) s t n e = absurd (cc (e ∙ t.0.is_hashed))
  same_payloads (x ∷ xs) [] s t n e = absurd (cc (sym e ∙ s.0.is_hashed))
  same_payloads (x ∷ xs) (y ∷ ys) s t n e =
      let (same, link) = same_payload (newest_hash xs) (newest_hash ys) x y s.0 t.0 n.0.0 e in
      cc (same, same_payloads xs ys s.1 t.1 (All-map _ _ xs (λ x d. d.1) n.1) link)

  pub chains_agree :
      (xs ys : List Event)
      → IsChain c trusted none xs
      → IsChain c trusted' none ys
      → NoCollision c xs ys
      → head_from none xs ≡ head_from none ys
      → map unsigned_payload xs ≡ map unsigned_payload ys
  chains_agree xs ys s t n e =
      let rev = λ (es : List Event). reverse_onto [] es in
      let reversed =
        same_payloads (rev xs) (rev ys) (newest_first c trusted [] xs (unfold NewestFirst in tt) s)
          (newest_first c trusted' [] ys (unfold NewestFirst in tt) t)
          (All-reverse_onto _ [] xs tt
            (All-map _ _ xs (λ x d. All-reverse_onto (Differ c x) [] ys tt d) n))
          (newest_hash-reverse_onto [] xs ∙ e ∙ sym (newest_hash-reverse_onto [] ys)) in
      reversed_again xs ys reversed

  -- Tamper evidence. If the verifier says that two journals are valid, the last events of the two
  -- have the same stored hash, and no payload of the one has the digest of a different payload of
  -- the other, then the two journals have the same payloads in the same order: no event was changed,
  -- inserted, removed or moved in between. The two may be verified under different trusted keys.
  pub same_head_same_history :
      (py : Python) (file file' : Option Line) (journal journal' : Option (List Line))
      (result result' : VerificationResult) (xs ys : List Event)
      → read_and_verify c trusted py file journal ≡ value (result, xs)
      → read_and_verify c trusted' py file' journal' ≡ value (result', ys)
      → result.valid ≡ true
      → result'.valid ≡ true
      → NoCollision c xs ys
      → head_from none xs ≡ head_from none ys
      → map unsigned_payload xs ≡ map unsigned_payload ys
  same_head_same_history py file file' journal journal' result result' xs ys h h' v v' n e =
      chains_agree xs ys (valid_chain c trusted py file journal result xs h v).0.is_chain
        (valid_chain c trusted' py file' journal' result' ys h' v').0.is_chain n e
