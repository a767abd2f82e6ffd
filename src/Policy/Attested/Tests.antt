-- ===== src/Policy/Attested/Tests.antt =====
-- Runs of `AttestedApprovalProvider` over a provider that allows all.
use tesera.Common.{ℕ, suc, ◌≡◌, refl, none, some}
use tesera.Policy.{ApprovalRequest, ApprovalDecision, allowed, allow, deny, text, Outcome, returned}
use tesera.Policy.Attested.{decide}

abbrev request : ApprovalRequest
request = record {
  action_name = "refund";
  risk = "high";
  approval_mode = "required";
  redacted_input_summary = "";
  input_hash = "";
  contract_hash = "";
  spend_cents = none;
}

abbrev ok : ApprovalDecision
ok = allow (text "ok")

-- It counts its calls.
abbrev inner : ApprovalRequest → ℕ → Outcome × ℕ
inner r n = (returned ok, suc n)

abbrev stamped : ApprovalDecision
stamped = record { decision = allowed; reason = text "ok"; approved_by = some "ada lovelace" }

run_environ : decide inner none (some "ada lovelace") request 0 ≡ (returned stamped, 1)
unfolding decide
run_environ = refl

run_missing :
    decide inner none (some "") request 0
    ≡ (returned (deny (text "no approver identity configured; failing closed")), 1)
unfolding decide
run_missing = refl

run_blank :
    decide inner (some "  ") none request 0
    ≡ (returned (deny (text "approver identity is malformed; failing closed")), 1)
unfolding decide
run_blank = refl
