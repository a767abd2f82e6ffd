-- ===== src/Policy/Quorum/Votes.antt =====
-- The quorum decision against the votes of the providers, each asked once in the order of the list.
use tesera.Common.{
  ℕ, ◌+◌, ◌≡◌, refl, ap, ◌∙◌, List, [], ◌∷◌, arith, leb, count_if, length, if◌then◌else◌,
}
use tesera.Policy.{
  ApprovalRequest, Reason, Reasons, nil, append_reason, Outcome, returned, raised, Provider,
  errored, allow, deny, quorum_reached, quorum_missed,
}
use tesera.Policy.Combined.Sound.{grants}
use tesera.Policy.Quorum.{QuorumApprovalProvider, judge, tally, ask_all, decide}

tally_count :
    (o : Outcome) (n : ℕ) (rs : Reasons) → (tally o (n, rs)).0 ≡ n + (if grants o then 1 else 0)
unfolding tally
tally_count (raised e) n rs = omega arith
tally_count (returned d) n rs = ground arith

-- The reasons of the answers, in their order.
abbrev pub answer_reason : Outcome → Reason
answer_reason (returned d) = d.reason
answer_reason (raised e) = errored e

unfoldable pub reasons_of : Reasons → List Outcome → Reasons
unfolding append_reason
reasons_of rs [] = rs
reasons_of rs (o ∷ os) = reasons_of (append_reason rs (answer_reason o)) os

tally-reasons :
    (o : Outcome) (n : ℕ) (rs : Reasons) → (tally o (n, rs)).1 ≡ append_reason rs (answer_reason o)
unfolding tally
tally-reasons (raised e) n rs = refl
tally-reasons (returned d) n rs = refl

module _ {ℓ} {S : Type ℓ} where
  -- The answers of all providers, and the state that the last one leaves.
  unfoldable pub votes : List (Provider S) → ApprovalRequest → S → List Outcome × S
  votes [] request s = ([], s)
  votes (p ∷ ps) request s =
      let (o, s') = p request s in let (os, s'') = votes ps request s' in (o ∷ os, s'')

  ask_all-votes :
      (ps : List (Provider S)) (r : ApprovalRequest) (n : ℕ) (rs : Reasons) (s : S)
      → ((ask_all ps r (n, rs) s).0.0 ≡ n + count_if grants (votes ps r s).0)
        × ((ask_all ps r (n, rs) s).1 ≡ (votes ps r s).1)
  unfolding ask_all votes
  ask_all-votes [] r n rs s = (omega arith, refl)
  ask_all-votes (p ∷ ps) r n rs s =
      let (o, s') = p r s in
      let (m, rs') = tally o (n, rs) in
      let ih = ask_all-votes ps r m rs' s' in (omega (arith, ih.0, tally_count o n rs), ih.1)

  ask_all-reasons :
      (ps : List (Provider S)) (r : ApprovalRequest) (n : ℕ) (rs : Reasons) (s : S)
      → (ask_all ps r (n, rs) s).0.1 ≡ reasons_of rs (votes ps r s).0
  unfolding ask_all votes reasons_of
  ask_all-reasons [] r n rs s = refl
  ask_all-reasons (p ∷ ps) r n rs s =
      let (o, s') = p r s in
      let (m, rs') = tally o (n, rs) in
      ask_all-reasons ps r m rs' s'
      ∙ ap (λ l. reasons_of l (votes ps r s').0) (tally-reasons o n rs)

  judged :
      (quorum size : ℕ) {n m : ℕ} {rs qs : Reasons} {s t : S}
      → n ≡ m
      → rs ≡ qs
      → s ≡ t
      → ◌≡◌ {A = Outcome × S} (judge quorum size n rs, s) (judge quorum size m qs, t)
  judged quorum size e f g = cc (e, f, g)

  -- A quorum provider always returns, whatever its providers raise. It asks every provider once,
  -- also after the outcome is settled, and leaves the state that the last one left. It allows if at
  -- least `quorum` of them allow, where one that raises does not, and denies otherwise; the reason
  -- gives the votes, and that of a denial all their reasons in order.
  pub decide_by_votes :
      (q : QuorumApprovalProvider S) (r : ApprovalRequest) (s : S)
      → let (os, s') = votes q.providers r s in
        let n = count_if grants os in
        let size = length q.providers in
        decide q r s ≡ (
          returned (
              if leb q.quorum n
              then allow (quorum_reached n q.quorum size)
              else deny (quorum_missed n q.quorum size (reasons_of nil os))),
          s',
        )
  unfolding decide
  decide_by_votes q r s =
      let v = ask_all-votes q.providers r 0 nil s in
      judged q.quorum (length q.providers) (v.0 ∙ omega arith)
        (ask_all-reasons q.providers r 0 nil s) v.1
