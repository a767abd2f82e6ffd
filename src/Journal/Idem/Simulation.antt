-- ===== src/Journal/Idem/Simulation.antt =====
-- The tables of the index against the state of the full scan, event by event, on journals whose
-- events are linked.
use tesera.Common.{
  Bool, true, false, Option, none, some, List, [], ◌∷◌, String, ◌≡◌, ap, ◌&&◌, not, any_of, arith,
  eq_iff, str_eq, if◌then◌else◌, Bool-cases, inl, inr, filter_if, All,
}
use mathlib.Core.List.{map-append}
use tesera.Common.Dict.{Dict, insert, contains, get_or, contains-insert}
use tesera.Json.{Event, get, as_str, is_str}
use tesera.Journal.Idem.{IdemTables, ScanState, ids_of, append_to, is_tracked}
use tesera.Journal.Idem.Query.{pick}
use tesera.Journal.Idem.Facts.{get_or-append_to, texts}

-- Whether an id is among those of the decisions so far.
abbrev pub is_known : String → List String → Bool
is_known id ids = any_of (λ j. str_eq j id) ids

abbrev pub known_text : Option String → List String → Bool
known_text none ids = false
known_text (some id) ids = is_known id ids

abbrev pub is_text : Option String → Bool
is_text none = false
is_text (some _) = true

-- A decision has a fresh id; an outcome or a resolution refers to an earlier decision and has its
-- value in a text.
unfoldable pub is_linked : List String → Event → Bool
is_linked ids event =
    if is_str "decision" (get "event_type" event)
    then not (known_text (as_str (get "event_id" event)) ids)
    else if is_str "outcome" (get "event_type" event)
    then known_text (as_str (get "decision_event_id" event)) ids
      && is_text (as_str (get "status" event))
    else if is_str "resolution" (get "event_type" event)
    then known_text (as_str (get "decision_event_id" event)) ids
      && is_text (as_str (get "resolution" event))
    else true

abbrev pub add_known : Option String → List String → List String
add_known none ids = ids
add_known (some id) ids = id ∷ ids

-- The ids of the decisions after one event more.
unfoldable pub next_ids : List String → Event → List String
next_ids ids event =
    if is_str "decision" (get "event_type" event)
    then add_known (as_str (get "event_id" event)) ids
    else ids

unfoldable pub are_linked : List String → List Event → Bool
unfolding is_linked next_ids
are_linked ids [] = true
are_linked ids (event ∷ events) = is_linked ids event && are_linked (next_ids ids event) events

abbrev pub tracked : String × Event → Bool
tracked (_, event) = is_tracked event

-- A decision under the action and the key.
abbrev pub is_keyed : String → String → String × Event → Bool
is_keyed action key (_, event) =
    is_str action (get "action_name" event) && is_str key (get "idempotency_key" event)

-- The two lists under one decision show the same texts.
abbrev pub SameTexts : String → Dict (List Event) → Dict (List Event) → String × Event → Type 0
SameTexts name c d (id, _) = texts name (get_or [] id c) ≡ texts name (get_or [] id d)

-- Nothing is recorded under an id that is no decision's.
abbrev pub Unrecorded : Dict Event → Dict (List Event) → Type 0
Unrecorded decisions d = (id : String) → contains id decisions ≡ false → get_or [] id d ≡ []

pub record Simulates (ids : List String) (s : ScanState) (t : IdemTables) : Type 0 where
  pub known : (id : String) → contains id s.decisions ≡ is_known id ids
  pub same_decisions : t.decisions ≡ filter_if tracked s.decisions
  pub candidates :
      (action key : String)
      → pick t.decisions (ids_of (action, key) t.by_key)
        ≡ some (filter_if (is_keyed action key) t.decisions)
  pub same_outcomes : All (SameTexts "status" s.outcomes t.outcomes) t.decisions
  pub same_resolutions : All (SameTexts "resolution" s.resolutions t.resolutions) t.decisions
  pub scan_outcomes : Unrecorded s.decisions s.outcomes
  pub scan_resolutions : Unrecorded s.decisions s.resolutions
  pub index_outcomes : Unrecorded s.decisions t.outcomes
  pub index_resolutions : Unrecorded s.decisions t.resolutions

-- What is not among all decisions is not among the tracked ones.
pub contains-filter :
    (id : String) (p : String × Event → Bool) (d : Dict Event)
    → contains id d ≡ false
    → contains id (filter_if p d) ≡ false
unfolding contains
contains-filter id p [] h = h
contains-filter id p ((j, e) ∷ d) h = ground (arith, contains-filter id p d)

-- A key that is not in the dict is none of its keys.
pub absent-All :
    (ref : String) (d : Dict Event) → contains ref d ≡ false → All (λ x. str_eq ref x.0 ≡ false) d
unfolding contains
absent-All ref [] h = tt
absent-All ref ((j, e) ∷ d) h =
    (ground (arith, eq_iff j ref, eq_iff ref j), absent-All ref d (ground arith))

-- One event joins both lists, with the same text.
pub SameTexts-append :
    (name ref : String) (a b : Event) (c d : Dict (List Event)) (x : String × Event)
    → as_str (get name a) ≡ as_str (get name b)
    → SameTexts name c d x
    → SameTexts name (append_to ref a c) (append_to ref b d) x
SameTexts-append name ref a b c d x e h = elim (Bool-cases (str_eq ref x.0)) [
  | inl y ↦
      rw (get_or-append_to ref x.0 a c, get_or-append_to ref x.0 b d, y)
        (rw (map-append, map-append, h, e))
  | inr n ↦ rw (get_or-append_to ref x.0 a c, get_or-append_to ref x.0 b d, n) h
]

-- One event joins the scan's list of another decision.
pub SameTexts-other :
    (name ref : String) (a : Event) (c d : Dict (List Event)) (x : String × Event)
    → str_eq ref x.0 ≡ false
    → SameTexts name c d x
    → SameTexts name (append_to ref a c) d x
SameTexts-other name ref a c d x n h = rw (get_or-append_to ref x.0 a c, n) h

pub Unrecorded-append :
    (ref : String) (a : Event) (decisions : Dict Event) (d : Dict (List Event))
    → contains ref decisions ≡ true
    → Unrecorded decisions d
    → Unrecorded decisions (append_to ref a d)
Unrecorded-append ref a decisions d k h id n = elim (Bool-cases (str_eq ref id)) [
  | inl y ↦ absurd (cc (k, n, ap (λ j. contains j decisions) ((eq_iff ref id).0 y)))
  | inr m ↦ rw (get_or-append_to ref id a d, m) (h id n)
]

pub Unrecorded-insert :
    (new : String) (event : Event) (decisions : Dict Event) (d : Dict (List Event))
    → Unrecorded decisions d
    → Unrecorded (insert new event decisions) d
Unrecorded-insert new event decisions d h id n =
    h id (ground (arith, contains-insert new id event decisions))

pub All-zip :
    {A : Type 0} (P Q R : A → Type 0) (xs : List A)
    → ((x : A) → P x → Q x → R x)
    → All P xs
    → All Q xs
    → All R xs
All-zip P Q R [] f h k = tt
All-zip P Q R (x ∷ xs) f h k = (f x h.0 k.0, All-zip P Q R xs f h.1 k.1)
