-- ===== src/Policy/Attested/Attests.antt =====
-- An allowance of `AttestedApprovalProvider` of src/tesera/policy.py names who approved.
use tesera.Common.{true, false, Option, some, String, ◌≡◌}
use tesera.Policy.{ApprovalDecision, is_allowed}
use tesera.Policy.Attested.{is_malformed, stamp_of}

-- The decision `d` is the inner decision `e` with the stamp of a configured identity.
pub record IsStamped (configured : Option String) (e d : ApprovalDecision) : Type 0 where
  pub identity : String
  pub inner_allows : is_allowed e.decision ≡ true
  pub is_configured : configured ≡ some identity
  pub same_decision : d.decision ≡ e.decision
  pub same_reason : d.reason ≡ e.reason
  pub names : d.approved_by ≡ some (stamp_of identity)
  pub is_formed : is_malformed (stamp_of identity) ≡ false
  pub is_tidy : stamp_of (stamp_of identity) ≡ stamp_of identity
