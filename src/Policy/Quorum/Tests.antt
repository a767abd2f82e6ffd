-- ===== src/Policy/Quorum/Tests.antt =====
-- A quorum of two of three providers, one of which raises.
use tesera.Common.{ℕ, ◌+◌, ◌≡◌, refl, none, [], ◌∷◌}
use tesera.Policy.{
  ApprovalRequest, allow, deny, text, returned, raised, Provider, quorum_reached, quorum_missed,
  errored, cons, nil,
}
use tesera.Policy.Quorum.{QuorumApprovalProvider, decide}
use tesera.Policy.Quorum.Votes.{votes, decide_by_votes}

abbrev request : ApprovalRequest
request = record {
  action_name = "refund";
  risk = "high";
  approval_mode = "required";
  redacted_input_summary = "";
  input_hash = "";
  contract_hash = "";
  spend_cents = none;
}

abbrev yea : Provider ℕ
yea r n = (returned (allow (text "yes")), n + 1)

abbrev broken : Provider ℕ
broken r n = (raised "ValueError()", n + 100)

abbrev two_of_three : QuorumApprovalProvider ℕ
two_of_three = record { providers = yea ∷ broken ∷ yea ∷ []; quorum = 2 }

abbrev unanimous : QuorumApprovalProvider ℕ
unanimous = record { providers = yea ∷ broken ∷ yea ∷ []; quorum = 3 }

-- Two of three miss a quorum of three: it returns a denial, and asks the last one too.
run_missed : decide unanimous request 0 ≡ (
  returned (
      deny (
        quorum_missed 2 3 3
          (cons (text "yes") (cons (errored "ValueError()") (cons (text "yes") nil))))),
  102,
)
unfolding decide
run_missed = refl

decide_by_votes_example :
    decide two_of_three request 0 ≡ (returned (allow (quorum_reached 2 2 3)), 102)
unfolding votes
decide_by_votes_example = decide_by_votes two_of_three request 0
