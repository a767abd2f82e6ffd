-- ===== src/Reconcile/Tests.antt =====
-- Runs of src/tesera/reconcile.py on one succeeded outcome with a receipt.
use tesera.Common.{
  ℕ, suc, ◌<◌, ◌≡◌, refl, true, Option, none, some, List, [], ◌∷◌, String, map, length, All,
}
use tesera.Json.{Json, Fields, Event, str, obj, field, end, as_str}
use tesera.Verification.Journal.{VerificationResult}
use tesera.Reconcile.{
  ReconcileReport, Answer, failed, unknown, provider_state, Status, matched, mismatched,
  other_value, provider_unknown, fetch_error, reconcile_verified_snapshot,
}
use tesera.Reconcile.Confirmed.{receipts, IsConfirmed, complete-IsConfirmed}

abbrev text : Option String → String
text none = "?"
text (some s) = s

abbrev python_str : Json → String
python_str v = text (as_str v)

abbrev receipt : Fields
receipt = field "id" (str "re_1") end

abbrev outcome : Event
outcome = field "event_type" (str "outcome") (
    field "status" (str "succeeded") (
      field "event_id" (str "e2") (
        field "decision_event_id" (str "e1")
          (field "action_name" (str "refund") (field "receipt" (obj receipt) end)))))

abbrev decision : Event
decision = field "event_type" (str "decision") (field "event_id" (str "e1") end)

abbrev events : List Event
events = decision ∷ outcome ∷ []

abbrev verified : VerificationResult
verified = record { valid = true; events_verified = 2; issues = [] }

-- The provider counts its calls.
abbrev answers : Answer → Fields → ℕ → Answer × ℕ
answers a r n = (a, suc n)

abbrev good : Answer
good = provider_state (field "amount" (str "5") (field "id" (str "re_1") end))

abbrev report : Status → ReconcileReport
report status = record {
  reconciliations =
      record {
        decision_event_id = "e1";
        outcome_event_id = "e2";
        action_name = "refund";
        receipt = receipt;
        status = status;
      }
      ∷ [];
}

run_good :
    reconcile_verified_snapshot python_str (λ s. s) (answers good) verified events 0
    ≡ (some (report matched), 1)
unfolding reconcile_verified_snapshot
run_good = refl

run_unknown :
    reconcile_verified_snapshot python_str (λ s. s) (answers unknown) verified events 0
    ≡ (some (report provider_unknown), 1)
unfolding reconcile_verified_snapshot
run_unknown = refl

run_failed :
    reconcile_verified_snapshot python_str (λ s. s) (answers (failed "timeout")) verified events 0
    ≡ (some (report (fetch_error "timeout")), 1)
unfolding reconcile_verified_snapshot
run_failed = refl

run_other :
    reconcile_verified_snapshot python_str
      (λ s. s)
      (answers (provider_state (field "id" (str "re_2") end)))
      verified
      events
      0
    ≡ (some (report (mismatched (other_value "id" (str "re_1") (str "re_2")))), 1)
unfolding reconcile_verified_snapshot
run_other = refl

complete-IsConfirmed_example :
    (0 < length (receipts events))
    × (map (λ item. item.receipt) (report matched).reconciliations ≡ receipts events)
    × All (IsConfirmed python_str (λ s. s) (answers good)) (receipts events)
complete-IsConfirmed_example =
    complete-IsConfirmed python_str (λ s. s) (answers good) verified events 0 1 (report matched)
      run_good refl
