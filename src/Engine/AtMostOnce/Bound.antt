-- ===== src/Engine/AtMostOnce/Bound.antt =====
-- At most one decision blocks under a key, however the processes of src/tesera/engine.py interleave.
use tesera.Common.{
  ◌≤◌, ◌≡◌, refl, ap, sym, ◌∙◌, subst, Bool, true, Option, none, some, [], ◌∷◌, ◌++◌, String, arith,
  Bool-cases, inl, inr, All, eq_iff,
}
use tesera.Json.{Json, Event, str, find, get, as_str, is_str, is_str_refl, is_str→as_str}
use tesera.Verification.{Crypto, value}
use tesera.Verification.Facts.{bind-value, value-inj}
use tesera.Journal.Idem.{empty_scan, scan, scan_event}
use tesera.Journal.Idem.Query.{is_candidate, scan_blocking}
use tesera.Journal.Idem.Simulation.{are_linked}
use tesera.Journal.Idem.Agree.{index_agrees_with_scan}
use tesera.Journal.Append.{
  Journal, append_event_atomic, locked_blocking_prior_id, checked_tail, tail_hash,
}
use tesera.Engine.{Stamp, Call, Decision, append_decision, build_atomic}
use tesera.Engine.Built.{IsDecision, verdict_of, build_atomic-IsDecision}
use tesera.Engine.AtMostOnce.{live, Step, decided, Reaches, start, append, recorded}
use tesera.Engine.AtMostOnce.Live.{IsNamed, scan-snoc, none_blocks, scan_decision-live, quiet-live}

get-found : (k : String) (event : Event) (v : Json) → find k event ≡ some v → get k event ≡ v
unfolding get
get-found k event v h = rw (h, get) refl

is_str-str : (s t : String) (v : Json) → v ≡ str t → is_str s v ≡ true → t ≡ s
unfolding as_str
is_str-str s t v e h = cc (is_str→as_str s (str t) (rw e at h))

-- The atomic query answers as the scan does.
pub locked-scan :
    (journal : Journal) (action key : String) (prior : Option String)
    → are_linked [] journal ≡ true
    → locked_blocking_prior_id journal action key ≡ value prior
    → scan_blocking action key journal ≡ prior
unfolding locked_blocking_prior_id
locked-scan journal action key prior linked h =
    value-inj _ _
      (rw (index_agrees_with_scan action key journal linked, locked_blocking_prior_id) at h)

-- What an atomic decision appends.
pub record Appends (stamp : Stamp) (call : Call) (decision : Decision) (key : String)
    (in_process : Bool) (journal journal' : Journal) (event : Event) : Type 0 where
  pub prior : Option String
  pub is_prior : scan_blocking call.contract.action_name key journal ≡ prior
  pub is_decision : IsDecision stamp call key (verdict_of decision in_process prior) event
  pub is_appended : journal' ≡ journal ++ event ∷ []

module _ (c : Crypto) where
  pub append_decision-Appends :
      (stamp : Stamp) (call : Call) (decision : Decision) (key : String) (in_process : Bool)
      (journal journal' : Journal) (event : Event)
      → are_linked [] journal ≡ true
      → append_decision c stamp call decision key in_process journal ≡ value (event, journal')
      → Appends stamp call decision key in_process journal journal' event
  unfolding append_decision append_event_atomic
  append_decision-Appends stamp call decision key in_process journal journal' event linked h =
      let (prior, asked, r) =
        bind-value (locked_blocking_prior_id journal call.contract.action_name key) _ _ h in
      let (previous, _, r) = bind-value (checked_tail (tail_hash journal)) _ _ r in
      let (built, e, r) =
        bind-value (build_atomic c stamp call decision key in_process previous prior) _ _ r in
      let same = value-inj _ _ r in
      record {
        prior = prior;
        is_prior = locked-scan journal call.contract.action_name key prior linked asked;
        is_decision =
            subst (λ b. IsDecision stamp call key (verdict_of decision in_process prior) b)
              (ap (λ x. x.0) same)
              (build_atomic-IsDecision c stamp call decision key in_process previous prior built e);
        is_appended = sym (ap (λ x. x.1) same) ∙ ap (λ x. journal ++ x ∷ []) (ap (λ x. x.0) same);
      }

not_duplicate :
    (decision : Decision) (in_process : Bool) (prior : Option String)
    → verdict_of decision in_process prior ≡ "allowed"
    → prior ≡ none
not_duplicate decision in_process none h = refl
not_duplicate decision in_process (some id) h = absurd (cc ((eq_iff "denied" "allowed").1 h))

-- A candidate of a query is a decision under its action and key, allowed with nothing that blocks.
candidate_unblocked :
    (stamp : Stamp) (call : Call) (decision : Decision) (key : String) (in_process : Bool)
    (journal journal' : Journal) (event : Event) (action' key' : String)
    → Appends stamp call decision key in_process journal journal' event
    → is_candidate action' key' event ≡ true
    → scan_blocking action' key' journal ≡ none
unfolding is_candidate
candidate_unblocked stamp call decision key in_process journal journal' event action' key' a h =
    let d = a.is_decision in
    let allowed =
      is_str-str "allowed" _ _ (get-found "decision" event _ d.decision) (ground arith) in
    let same_action =
      is_str-str action' _ _ (get-found "action_name" event _ d.action_name) (ground arith) in
    let same_key =
      is_str-str key' _ _ (get-found "idempotency_key" event _ d.idempotency_key) (ground arith) in
    subst (λ k. scan_blocking action' k journal ≡ none) same_key
      (subst (λ n. scan_blocking n key journal ≡ none) same_action
        (a.is_prior ∙ not_duplicate decision in_process a.prior allowed))

-- What holds of every journal that is reached: it is linked, its decisions are under their ids, and
-- at most one of them blocks a key.
record IsBounded (journal : Journal) : Type 0 where
  linked : are_linked [] journal ≡ true
  named : All IsNamed (scan empty_scan journal).decisions
  bound : (action key : String) → live action key (scan empty_scan journal) ≤ 1

decided-live :
    (stamp : Stamp) (call : Call) (decision : Decision) (key : String) (in_process : Bool)
    (journal journal' : Journal) (event : Event) (action' key' : String)
    → Appends stamp call decision key in_process journal journal' event
    → IsBounded journal
    → (live action' key' (scan_event (scan empty_scan journal) event) ≤ 1)
      × All IsNamed (scan_event (scan empty_scan journal) event).decisions
unfolding scan_event scan_blocking
decided-live stamp call decision key in_process journal journal' event action' key' a b =
    let s = scan empty_scan journal in
    let is_one =
      ap (is_str "decision") (get-found "event_type" event _ a.is_decision.event_type)
      ∙ is_str_refl "decision" in
    let k = scan_decision-live action' key' s event (as_str (get "event_id" event)) refl b.named in
    rw is_one (
      elim (Bool-cases (is_candidate action' key' event)) [
        | inl y ↦
            let none_left = none_blocks action' key' s s.decisions b.named (
              candidate_unblocked stamp call decision key in_process journal journal' event action'
                key' a y) in
            omega (arith, rw y at k.0, none_left)
        | inr n ↦ omega (arith, rw n at k.0, b.bound action' key')
      ],
      k.1,
    )

snoc-IsBounded :
    (journal : Journal) (event : Event)
    → are_linked [] (journal ++ event ∷ []) ≡ true
    → ((action key : String)
        → (live action key (scan_event (scan empty_scan journal) event) ≤ 1)
          × All IsNamed (scan_event (scan empty_scan journal) event).decisions)
    → IsBounded (journal ++ event ∷ [])
snoc-IsBounded journal event linked h =
    let e = sym (scan-snoc empty_scan journal event) in
    record {
      linked = linked;
      named = subst (λ s. All IsNamed s.decisions) e (h "" "").1;
      bound = λ action key. subst (λ s. live action key s ≤ 1) e (h action key).0;
    }

module _ (c : Crypto) where
  Step-IsBounded :
      (journal journal' : Journal)
      → Step c journal journal'
      → are_linked [] journal' ≡ true
      → IsBounded journal
      → IsBounded journal'
  Step-IsBounded journal journal' (decided stamp call decision key in_process event h) linked b =
      let a =
        append_decision-Appends c stamp call decision key in_process journal journal' event b.linked
          h in
      subst IsBounded (sym a.is_appended) (
        snoc-IsBounded journal event (subst (λ j. are_linked [] j ≡ true) a.is_appended linked)
          (λ action' key'.
            decided-live stamp call decision key in_process journal journal' event action' key' a
              b))
  Step-IsBounded journal _ (recorded event quiet) linked b =
      snoc-IsBounded journal event linked (λ action key.
        let k = quiet-live action key (scan empty_scan journal) event quiet b.named in
        (omega (arith, k.0, b.bound action key), k.1))

  Reaches-IsBounded : (journal : Journal) → Reaches c journal → IsBounded journal
  Reaches-IsBounded _ start = record {
    linked = unfold are_linked in refl;
    named = unfold scan in tt;
    bound = λ action key. unfold scan in omega arith;
  }
  Reaches-IsBounded journal (append r step linked) =
      Step-IsBounded _ journal step linked (Reaches-IsBounded _ r)

  -- In every journal that grows from an empty file by atomic decisions of any number of processes,
  -- in any order, and by the other appends (decisions that cannot block, an outcome or a resolution
  -- of a decision in progress, other events), with a new id for each decision, and outcomes and
  -- resolutions that hold a text and name an earlier decision, at most one decision under
  -- each action and key blocks: no two allowed runs of one key are in progress or succeeded at once.
  pub at_most_one_live :
      (action key : String) (journal : Journal)
      → Reaches c journal
      → live action key (scan empty_scan journal) ≤ 1
  at_most_one_live action key journal r = (Reaches-IsBounded journal r).bound action key
