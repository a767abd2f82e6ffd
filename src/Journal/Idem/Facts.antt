-- ===== src/Journal/Idem/Facts.antt =====
-- How the tables of the index change: ids under a key, candidates, lists under a decision id.
use tesera.Common.{
  Bool, true, false, Option, none, some, List, [], ◌∷◌, ◌++◌, String, ◌≡◌, refl, ap, sym, ◌∙◌,
  any_of, map, arith, eq_iff, str_eq, if◌then◌else◌, Bool-cases, Option-cases, inl, inr,
}
use tesera.Common.Dict.{Dict, lookup, get_or, lookup-append, get_or-insert}
use tesera.Json.{Event, get, as_str, is_str}
use tesera.Journal.Idem.{Key, key_eq, ids_of, add_id, append_to}
use tesera.Journal.Idem.Query.{pick, has_succeeded, is_cleared, is_empty, is_blocking}

key_eq→eq : (j k : Key) → key_eq j k ≡ true → j ≡ k
key_eq→eq j k h = ground (arith, eq_iff j.0 k.0, eq_iff j.1 k.1)

key_eq_refl : (j : Key) → key_eq j j ≡ true
key_eq_refl j = ground (arith, eq_iff j.0 j.0, eq_iff j.1 j.1)

key_eq_other : (i j k : Key) → key_eq i k ≡ true → key_eq i j ≡ false → key_eq j k ≡ false
key_eq_other i j k e n = elim (Bool-cases (key_eq j k)) [
  | inl y ↦ absurd (cc (n, key_eq_refl i, ap (key_eq i) (key_eq→eq i k e ∙ sym (key_eq→eq j k y))))
  | inr m ↦ m
]

-- The ids under each key after one id joins.
pub ids_of-add_id :
    (key j : Key) (id : String) (rows : List (Key × List String))
    → ids_of key (add_id j id rows)
      ≡ (if key_eq j key then ids_of key rows ++ id ∷ [] else ids_of key rows)
unfolding ids_of add_id
ids_of-add_id key j id [] = refl
ids_of-add_id key j id ((i, ids) ∷ rows) = elim (Bool-cases (key_eq i j)) [
  | inl e ↦ rw (e, key_eq→eq i j e) (ground arith)
  | inr n ↦ rw n (elim (Bool-cases (key_eq i key)) [
    | inl e ↦ rw (e, key_eq_other i j key e n)
    | inr m ↦ rw m (ids_of-add_id key j id rows)
  ])
]

pick_nil : (d : Dict Event) {cs : Dict Event} → pick d [] ≡ some cs → [] ≡ cs
unfolding pick
pick_nil d e = cc

pick_cons :
    (d : Dict Event) (id : String) (ids : List String) {event : Event} {rest : Dict Event}
    → lookup id d ≡ some event
    → pick d ids ≡ some rest
    → pick d (id ∷ ids) ≡ some ((id, event) ∷ rest)
unfolding pick
pick_cons d id ids e p = rw (e, p, pick)

pick_inv :
    (d : Dict Event) (id : String) (ids : List String) {cs : Dict Event}
    → pick d (id ∷ ids) ≡ some cs
    → (event : Event) × (rest : Dict Event) × (lookup id d ≡ some event)
      × (pick d ids ≡ some rest)
      × ((id, event) ∷ rest ≡ cs)
unfolding pick
pick_inv d id ids e = elim (Option-cases (lookup id d)) [
  | inl n ↦ absurd (cc (rw (n, pick) at e))
  | inr (event, f) ↦ elim (Option-cases (pick d ids)) [
    | inl n ↦ absurd (cc (rw (f, n, pick) at e))
    | inr (rest, g) ↦ (event, rest, f, g, ground arith)
  ]
]

-- Candidates that are found stay found when the dict grows at its end.
pub pick-append :
    (c d : Dict Event) (ids : List String) {cs : Dict Event}
    → pick c ids ≡ some cs
    → pick (c ++ d) ids ≡ some cs
pick-append c d [] e = unfold pick in e
pick-append c d (id ∷ ids) e =
    let (event, rest, f, g, h) = pick_inv c id ids e in
    pick_cons (c ++ d) id ids (lookup-append id c d f) (pick-append c d ids g) ∙ ap some h

pub pick-snoc :
    (d : Dict Event) (ids : List String) (id : String) (event : Event) {cs : Dict Event}
    → pick d ids ≡ some cs
    → lookup id d ≡ some event
    → pick d (ids ++ id ∷ []) ≡ some (cs ++ (id, event) ∷ [])
pick-snoc d [] id event e h =
    pick_cons d id [] {rest = []} h (unfold pick in refl)
    ∙ ap (λ l. some (l ++ (id, event) ∷ [])) (pick_nil d e)
pick-snoc d (i ∷ ids) id event e h =
    let (event', rest, f, g, k) = pick_inv d i ids e in
    pick_cons d i (ids ++ id ∷ []) f (pick-snoc d ids id event g h)
    ∙ ap (λ l. some (l ++ (id, event) ∷ [])) k

-- The list under each id after one event joins.
pub get_or-append_to :
    (ref id : String) (event : Event) (d : Dict (List Event))
    → get_or [] id (append_to ref event d)
      ≡ (if str_eq ref id then get_or [] id d ++ event ∷ [] else get_or [] id d)
unfolding append_to
get_or-append_to ref id event d = elim (Bool-cases (str_eq ref id)) [
  | inl e ↦ rw (get_or-insert, e, (eq_iff ref id).0 e)
  | inr n ↦ rw (get_or-insert, n)
]

-- The texts under one field of the events of a list; what blocks depends on nothing else.
abbrev pub texts : String → List Event → List (Option String)
texts name = map (λ event. as_str (get name event))

abbrev text_is : String → Option String → Bool
text_is s none = false
text_is s (some t) = str_eq t s

any-texts :
    (xs : List Event) → any_of has_succeeded xs ≡ any_of (text_is "succeeded") (texts "status" xs)
unfolding has_succeeded is_str
any-texts [] = refl
any-texts (x ∷ xs) = ground (arith, any-texts xs)

abbrev last_cleared : List (Option String) → Bool
last_cleared [] = false
last_cleared (r ∷ []) = text_is "confirmed_not_completed" r
last_cleared (r ∷ q ∷ rest) = last_cleared (q ∷ rest)

cleared-texts : (ys : List Event) → is_cleared ys ≡ last_cleared (texts "resolution" ys)
unfolding is_cleared is_str
cleared-texts [] = refl
cleared-texts (y ∷ []) = ground arith
cleared-texts (y ∷ z ∷ ys) = cleared-texts (z ∷ ys)

empty-texts : (xs : List Event) → is_empty xs ≡ is_empty (texts "status" xs)
empty-texts [] = refl
empty-texts (x ∷ xs) = refl

pub is_blocking-texts :
    (xs xs' ys ys' : List Event)
    → texts "status" xs ≡ texts "status" xs'
    → texts "resolution" ys ≡ texts "resolution" ys'
    → is_blocking xs ys ≡ is_blocking xs' ys'
unfolding is_blocking
is_blocking-texts xs xs' ys ys' e f = rw (
  any-texts xs,
  any-texts xs',
  empty-texts xs,
  empty-texts xs',
  cleared-texts ys,
  cleared-texts ys',
  e,
  f,
)
