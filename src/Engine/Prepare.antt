-- ===== src/Engine/Prepare.antt =====
-- The approval and the end of `_prepare_execution` of src/tesera/engine.py, for a journal file and
-- a call with a key that the pre-check did not find blocked.
pub mod Evidence
use tesera.Common.{Bool, true, false, Option, none, some, String, str_eq, if◌then◌else◌}
use tesera.Policy.{ApprovalRequest, ApprovalDecision, Verdict, allowed, denied, invalid}
use tesera.Verification.{Exception, Checked, value, raises, Crypto}
use tesera.Journal.Append.{Journal, Appended, locked_blocking_prior_id}
use tesera.Json.{Event}
use tesera.Engine.{Stamp, Call, Decision, append_decision, is_duplicate}

-- What a call of `provider.decide` does: it returns a decision or another value, or raises a
-- TeseraError or another exception.
pub data Answer : Type 0 where
  returns : ApprovalDecision → Answer
  no_decision tesera_error other_error : Answer

pub record Supplied : Type 0 where
  pub is_auto_allow : Bool
  pub answer : Answer

-- What `_evaluate_approval` returns or raises.
pub data Evaluated : Type 0 where
  decides : ApprovalDecision → Evaluated
  contract_error approval_error passed_on : Evaluated

-- The part of `_evaluate_approval` after the provider is chosen.
unfoldable pub judge_answer : Answer → Evaluated
judge_answer tesera_error = passed_on
judge_answer other_error = approval_error
judge_answer no_decision = approval_error
judge_answer (returns d) = elim d.decision [
  | allowed ↦ decides d
  | denied ↦ decides d
  | invalid s ↦ approval_error
]

-- `_evaluate_approval`, on the approval mode, the provider if there is one, and the answers of the
-- providers that it makes itself: `AutoAllowProvider` and `TerminalApprovalProvider`.
unfoldable pub evaluate_approval : String → Option Supplied → Answer → Answer → Evaluated
unfolding judge_answer
evaluate_approval mode none auto terminal =
    if str_eq mode "never" then judge_answer auto else judge_answer terminal
evaluate_approval mode (some p) auto terminal =
    if str_eq mode "never"
    then (if p.is_auto_allow then judge_answer auto else contract_error)
    else judge_answer p.answer

-- How the preparation ends: the function runs, or an error is raised, after the decision event is
-- in the journal or before anything is.
pub data Prepared : Type 0 where
  runs : Event → Journal → Prepared
  duplicate : Option String → Journal → Prepared
  action_denied : Journal → Prepared
  not_decided : Evaluated → Prepared
  no_evidence : Exception → Prepared

-- The texts of a decision, scrubbed.
abbrev pub record_of :
    (ApprovalDecision → String) → (ApprovalDecision → Option String) → ApprovalDecision → Decision
record_of reason approved_by d = record {
  allowed = elim d.decision [ allowed ↦ true | denied ↦ false | invalid _ ↦ false ];
  reason = reason d;
  approved_by = approved_by d;
}

-- The checks after the append.
unfoldable pub after_append : Bool → Bool → Option String → Appended → Prepared
after_append is_dup is_allowed prior_id (raises e) = no_evidence e
after_append is_dup is_allowed prior_id (value (event, journal)) =
    if is_dup
    then duplicate prior_id journal
    else if is_allowed
    then runs event journal
    else action_denied journal

unfoldable pub append_checked :
    Crypto → Stamp → Call → Decision → String → Bool → Journal → Checked (Option String) → Prepared
unfolding after_append
append_checked c stamp call d key in_process journal (raises e) = no_evidence e
append_checked c stamp call d key in_process journal (value prior_id) =
    after_append (is_duplicate in_process prior_id) d.allowed prior_id
      (append_decision c stamp call d key in_process journal)

-- Steps 6 and 7 of `_prepare_execution`, with the scrubbed texts of a decision.
unfoldable pub prepare :
    Crypto
    → Stamp
    → Call
    → (ApprovalDecision → String)
    → (ApprovalDecision → Option String)
    → String
    → Bool
    → Journal
    → Evaluated
    → Prepared
unfolding append_checked
prepare c stamp call reason approved_by key in_process journal (decides d) =
    append_checked c stamp call (record_of reason approved_by d) key in_process journal
      (locked_blocking_prior_id journal call.contract.action_name key)
prepare c stamp call reason approved_by key in_process journal e = not_decided e

-- Both steps: the approval under the mode of the contract, and what follows it.
unfoldable pub prepare_execution :
    Crypto
    → Stamp
    → Call
    → (ApprovalDecision → String)
    → (ApprovalDecision → Option String)
    → String
    → Bool
    → Journal
    → Option Supplied
    → Answer
    → Answer
    → Prepared
unfolding prepare evaluate_approval
prepare_execution c stamp call reason approved_by key in_process journal provider auto terminal =
    prepare c stamp call reason approved_by key in_process journal
      (evaluate_approval call.contract.approval_mode provider auto terminal)
