-- ===== src/Policy/Quorum.antt =====
-- `QuorumApprovalProvider` of src/tesera/policy.py: every provider is asked, and what one raises
-- counts as a denial.
pub mod Votes
mod Tests
use tesera.Common.{
  ℕ, zero, suc, ◌+◌, Option, none, some, List, [], ◌∷◌, leb, ltb, ◌&&◌, length, if◌then◌else◌,
}
use tesera.Policy.{
  ApprovalRequest, Reasons, nil, append_reason, allow, deny, is_allowed, errored, quorum_reached,
  quorum_missed, Outcome, returned, raised, Provider,
}

pub record QuorumApprovalProvider {ℓ} (S : Type ℓ) : Type ℓ where
  pub providers : List (Provider S)
  pub quorum : ℕ

-- The body of the loop on one answer: the allowances so far and the reasons.
unfoldable pub tally : Outcome → ℕ × Reasons → ℕ × Reasons
unfolding append_reason
tally (raised e) (n, reasons) = (n, append_reason reasons (errored e))
tally (returned d) (n, reasons) =
    (if is_allowed d.decision then n + 1 else n, append_reason reasons d.reason)

-- The decision on the count.
abbrev pub judge : ℕ → ℕ → ℕ → Reasons → Outcome
judge quorum size n reasons = returned (
    if leb quorum n
    then allow (quorum_reached n quorum size)
    else deny (quorum_missed n quorum size reasons))

module _ {ℓ} {S : Type ℓ} where
  -- `__init__`; none is the ValueError.
  pub init : List (Provider S) → ℕ → Option (QuorumApprovalProvider S)
  init [] quorum = none
  init (p ∷ ps) quorum =
      if leb 1 quorum && leb quorum (length (p ∷ ps))
      then some (record { providers = p ∷ ps; quorum = quorum })
      else none

  -- The loop.
  unfoldable pub ask_all : List (Provider S) → ApprovalRequest → ℕ × Reasons → S → (ℕ × Reasons) × S
  unfolding tally
  ask_all [] request acc s = (acc, s)
  ask_all (provider ∷ providers) request acc s =
      let (o, s') = provider request s in ask_all providers request (tally o acc) s'

  unfoldable pub decide : QuorumApprovalProvider S → Provider S
  unfolding ask_all
  decide q request s =
      let (acc, s') = ask_all q.providers request (0, nil) s in
      (judge q.quorum (length q.providers) acc.0 acc.1, s')
