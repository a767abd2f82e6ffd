-- ===== src/Audit/Linked.antt =====
-- Which outcomes and which resolutions the audit's index links to a decision.
use tesera.Common.{
  ℕ, suc, ◌≡◌, refl, sym, ap, ◌∙◌, inl, inr, Bool, true, false, Bool-cases, Option-cases, List, [],
  ◌∷◌, ◌++◌, String, ◌&&◌, str_eq, eq_iff, if◌then◌else◌,
}
use tesera.Common.Dict.{Dict, get_or, get_or-insert}
use tesera.Json.{Json, Event, get, is_str, as_str}
use tesera.Audit.{Numbered, Index, str_of, index_from, index_event, file_event, append_to}

pub append_nil {ℓ} : {A : Type ℓ} (xs : List A) → xs ++ [] ≡ xs
append_nil [] = refl
append_nil (x ∷ xs) = ap (λ l. x ∷ l) (append_nil xs)

if_append {ℓ} :
    {A : Type ℓ} (b : Bool) (xs ys : List A)
    → (if b then xs ++ ys else xs) ≡ xs ++ (if b then ys else [])
if_append true xs ys = refl
if_append false xs ys = sym (append_nil xs)

if_cons {ℓ} :
    {A : Type ℓ} (b : Bool) (x : A) (xs : List A)
    → (if b then x ∷ xs else xs) ≡ (if b then x ∷ [] else []) ++ xs
if_cons true x xs = refl
if_cons false x xs = refl

pub append_assoc {ℓ} : {A : Type ℓ} (xs ys zs : List A) → (xs ++ ys) ++ zs ≡ xs ++ (ys ++ zs)
append_assoc [] ys zs = refl
append_assoc (x ∷ xs) ys zs = ap (λ l. x ∷ l) (append_assoc xs ys zs)

-- A value is equal to at most one text.
pub is_str-apart :
    (s t : String) (v : Json) → is_str s v ≡ true → str_eq s t ≡ false → is_str t v ≡ false
unfolding is_str
is_str-apart s t v h n = elim (Option-cases (as_str v)) [
  | inl e ↦ rw (e, is_str) refl
  | inr (r, e) ↦ rw (e, is_str) (rw ((eq_iff r s).0 (rw (e, is_str) at h)) n)
]

module _ (python_str : Json → String) where
  -- The events of a type that refer to a decision, in order, with their indices.
  unfoldable pub linked_in : String → String → ℕ → List Event → List Numbered
  linked_in type decision_id i [] = []
  linked_in type decision_id i (event ∷ events) =
      let rest = linked_in type decision_id (suc i) events in
      if is_str type (get "event_type" event)
        && str_eq (str_of python_str "decision_event_id" event) decision_id
      then (i, event) ∷ rest
      else rest

  get_or-append_to :
      (id k : String) (x : Numbered) (d : Dict (List Numbered))
      → get_or [] id (append_to k x d)
        ≡ (if str_eq k id then get_or [] id d ++ x ∷ [] else get_or [] id d)
  unfolding append_to
  get_or-append_to id k x d = elim (Bool-cases (str_eq k id)) [
    | inl y ↦
        rw (get_or-insert [] k id (get_or [] k d ++ x ∷ []) d, y) (rw ((eq_iff k id).0 y) refl)
    | inr n ↦ rw (get_or-insert [] k id (get_or [] k d ++ x ∷ []) d, n) refl
  ]

  -- The part of a list that one event adds.
  abbrev pub if_linked : String → String → Numbered → List Numbered
  if_linked type id (i, event) =
      if is_str type (get "event_type" event)
        && str_eq (str_of python_str "decision_event_id" event) id
      then (i, event) ∷ []
      else []

  index_event-outcomes :
      (id : String) (i : ℕ) (event : Event) (ix : Index)
      → get_or [] id (index_event python_str (i, event) ix).outcomes
        ≡ get_or [] id ix.outcomes ++ if_linked "outcome" id (i, event)
  unfolding index_event file_event
  index_event-outcomes id i event ix =
      let t = get "event_type" event in
      elim (Bool-cases (is_str "decision" t)) [
        | inl d ↦ rw (d, is_str-apart "decision" "outcome" t d refl) (sym (append_nil _))
        | inr nd ↦ elim (Bool-cases (is_str "outcome" t)) [
          | inl o ↦
              rw
                (
                  nd,
                  o,
                  get_or-append_to id (str_of python_str "decision_event_id" event) (i, event)
                      ix.outcomes,
                )
                (if_append (str_eq (str_of python_str "decision_event_id" event) id)
                  (get_or [] id ix.outcomes) ((i, event) ∷ []))
          | inr m ↦ elim (Bool-cases (is_str "resolution" t)) [
            | inl r ↦ rw (nd, m, r) (sym (append_nil _))
            | inr nr ↦ rw (nd, m, nr) (sym (append_nil _))
          ]
        ]
      ]

  index_event-resolutions :
      (id : String) (i : ℕ) (event : Event) (ix : Index)
      → get_or [] id (index_event python_str (i, event) ix).resolutions
        ≡ get_or [] id ix.resolutions ++ if_linked "resolution" id (i, event)
  unfolding index_event file_event
  index_event-resolutions id i event ix =
      let t = get "event_type" event in
      elim (Bool-cases (is_str "decision" t)) [
        | inl d ↦ rw (d, is_str-apart "decision" "resolution" t d refl) (sym (append_nil _))
        | inr nd ↦ elim (Bool-cases (is_str "outcome" t)) [
          | inl o ↦ rw (nd, o, is_str-apart "outcome" "resolution" t o refl) (sym (append_nil _))
          | inr m ↦ elim (Bool-cases (is_str "resolution" t)) [
            | inl r ↦
                rw
                  (
                    nd,
                    m,
                    r,
                    get_or-append_to id (str_of python_str "decision_event_id" event) (i, event)
                        ix.resolutions,
                  )
                  (if_append (str_eq (str_of python_str "decision_event_id" event) id)
                    (get_or [] id ix.resolutions) ((i, event) ∷ []))
            | inr nr ↦ rw (nd, m, nr) (sym (append_nil _))
          ]
        ]
      ]

  -- A list that grows by what each event adds holds all that the events add.
  grows :
      (type id : String) (i : ℕ) (event : Event) (events : List Event)
      (before now after : List Numbered)
      → now ≡ before ++ if_linked type id (i, event)
      → after ≡ now ++ linked_in type id (suc i) events
      → after ≡ before ++ linked_in type id i (event ∷ events)
  unfolding linked_in
  grows type id i event events before now after h k =
      k
      ∙ rw h (
          append_assoc before _ _
          ∙ ap (λ l. before ++ l)
              (sym (
                if_cons
                  (is_str type (get "event_type" event)
                    && str_eq (str_of python_str "decision_event_id" event) id)
                  (i, event) (linked_in type id (suc i) events))))

  pub index_from-outcomes :
      (id : String) (i : ℕ) (events : List Event) (ix : Index)
      → get_or [] id (index_from python_str i events ix).outcomes
        ≡ get_or [] id ix.outcomes ++ linked_in "outcome" id i events
  unfolding index_from linked_in
  index_from-outcomes id i [] ix = sym (append_nil _)
  index_from-outcomes id i (event ∷ events) ix =
      grows "outcome" id i event events _ _ _ (index_event-outcomes id i event ix)
        (index_from-outcomes id (suc i) events (index_event python_str (i, event) ix))

  pub index_from-resolutions :
      (id : String) (i : ℕ) (events : List Event) (ix : Index)
      → get_or [] id (index_from python_str i events ix).resolutions
        ≡ get_or [] id ix.resolutions ++ linked_in "resolution" id i events
  unfolding index_from linked_in
  index_from-resolutions id i [] ix = sym (append_nil _)
  index_from-resolutions id i (event ∷ events) ix =
      grows "resolution" id i event events _ _ _ (index_event-resolutions id i event ix)
        (index_from-resolutions id (suc i) events (index_event python_str (i, event) ix))
