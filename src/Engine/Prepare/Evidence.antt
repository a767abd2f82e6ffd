-- ===== src/Engine/Prepare/Evidence.antt =====
-- A guarded function of src/tesera/engine.py runs only with its evidence in the journal.
use tesera.Common.{none, [], ◌∷◌, ◌++◌, String, ◌≡◌}
use tesera.Policy.{ApprovalDecision, allowed}
use tesera.Json.{Event}
use tesera.Journal.Append.{Journal}
use tesera.Journal.Idem.Query.{scan_blocking}
use tesera.Engine.{Stamp, Call}
use tesera.Engine.Built.{IsDecision}
use tesera.Engine.Prepare.{Evaluated, decides}

-- What has to hold when the function runs: a provider allowed the call, nothing under its action and
-- key blocks, and the journal has one event more, the decision that records all that.
pub record HasEvidence (stamp : Stamp) (call : Call) (key : String) (e : Evaluated)
    (journal journal' : Journal) (event : Event) : Type 0 where
  pub decision : ApprovalDecision
  pub is_decided : e ≡ decides decision
  pub is_allowed_by : decision.decision ≡ allowed
  pub is_unblocked : scan_blocking call.contract.action_name key journal ≡ none
  pub is_appended : journal' ≡ journal ++ event ∷ []
  pub is_recorded : IsDecision stamp call key "allowed" event
