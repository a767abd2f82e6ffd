-- ===== src/Engine/Payload.antt =====
-- The fields of the events that src/tesera/engine.py builds.
use tesera.Common.{
  false, Option, none, some, String, ◌≡◌, refl, ap, sym, ◌∙◌, str_eq, Bool-cases, Option-cases, inl,
  inr, if◌then◌else◌,
}
use tesera.Json.{Json, Fields, Event, str, field, end, find}
use tesera.Json.Payload.{set, find-set}
use tesera.Verification.{value, Crypto}
use tesera.Verification.Event.{event_digest}
use tesera.Verification.Facts.{bind-value, value-inj}
use tesera.Journal.Append.{seal, finalize_event}
use tesera.Engine.{opt, update}

-- The last value of a key, which is the one that an update leaves.
unfoldable pub find_last : String → Fields → Option Json
find_last k end = none
find_last k (field j v fs) = elim (find_last k fs) [
  | none ↦ if str_eq j k then some v else none
  | some w ↦ some w
]

-- `o`, or `p` if there is none.
abbrev pub or_else : Option Json → Option Json → Option Json
or_else none p = p
or_else (some v) p = some v

pub find-update :
    (k : String) (extra payload : Fields)
    → find k (update payload extra) ≡ or_else (find_last k extra) (find k payload)
unfolding update find_last
find-update k end payload = refl
find-update k (field j v extra) payload =
    let ih = find-update k extra (set j v payload) in
    elim (Option-cases (find_last k extra)) [
      | inr (w, e) ↦ ih ∙ rw e refl
      | inl n ↦ elim (Bool-cases (str_eq j k)) [
        | inl y ↦ ih ∙ rw (n, y) (find-set j k v payload ∙ rw y refl)
        | inr m ↦ ih ∙ rw (n, m) (find-set j k v payload ∙ rw m refl)
      ]
    ]

pub find_last-opt :
    (k j : String) (o : Option Json) (fs : Fields)
    → str_eq j k ≡ false
    → find_last k (opt j o fs) ≡ find_last k fs
unfolding opt find_last
find_last-opt k j none fs h = refl
find_last-opt k j (some v) fs h = elim (Option-cases (find_last k fs)) [
  | inl n ↦ rw (n, h) refl
  | inr (w, e) ↦ rw e refl
]

-- Sealing changes no other field.
find-seal :
    (k digest signature : String) (payload : Fields)
    → str_eq "signature" k ≡ false
    → str_eq "event_hash" k ≡ false
    → find k (seal digest signature payload) ≡ find k payload
find-seal k digest signature payload s h =
    find-set "signature" k (str signature) (set "event_hash" (str digest) payload)
    ∙ rw s (find-set "event_hash" k (str digest) payload ∙ rw h refl)

module _ (c : Crypto) where
  -- A field of an event that is finalized, other than the two of its seal.
  pub finalize_event-find :
      (sign : String → String) (k : String) (payload : Fields) (event : Event)
      → str_eq "signature" k ≡ false
      → str_eq "event_hash" k ≡ false
      → finalize_event c sign payload ≡ value event
      → find k event ≡ find k payload
  unfolding finalize_event
  finalize_event-find sign k payload event s h e =
      let (d, _, sealed) = bind-value (event_digest c payload) _ event e in
      ap (find k) (sym (value-inj (seal d (sign d) payload) event sealed))
      ∙ find-seal k d (sign d) payload s h
