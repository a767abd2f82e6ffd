-- ===== src/Reconcile.antt =====
-- src/tesera/reconcile.py: the receipts of a verified snapshot against the records of the provider.
-- `fetch` reads and writes a state of its own; `python_str` is Python's `str` of a JSON value, and
-- `first_500` the cut of a text at 500 characters.
pub mod Confirmed
mod Tests
use tesera.Common.{
  Bool, true, false, Option, none, some, List, [], ◌∷◌, String, not, ◌&&◌, any_of, all_of, str_eq,
  if◌then◌else◌,
}
use tesera.Json.{Json, Fields, Event, end, field, find, get, is_str, as_obj}
use tesera.Verification.Journal.{VerificationResult}

-- `_first_mismatch`: what its text names.
pub data Mismatch : Type 0 where
  no_field : String → Mismatch
  other_value : String → Json → Json → Mismatch

-- The status of a receipt, with its detail.
pub data Status : Type 0 where
  matched provider_unknown : Status
  mismatched : Mismatch → Status
  fetch_error : String → Status

pub record ReceiptReconciliation : Type 0 where
  pub decision_event_id : String
  pub outcome_event_id : String
  pub action_name : String
  pub receipt : Fields
  pub status : Status

pub record ReconcileReport : Type 0 where
  pub reconciliations : List ReceiptReconciliation

-- What a call of `fetch` comes to: it raises, it returns None, or it returns a mapping.
pub data Answer : Type 0 where
  failed : String → Answer
  unknown : Answer
  provider_state : Fields → Answer

abbrev pub is_matched : Status → Bool
is_matched matched = true
is_matched _ = false

abbrev pub is_mismatched : Status → Bool
is_mismatched (mismatched _) = true
is_mismatched _ = false

abbrev pub is_empty {ℓ} : {A : Type ℓ} → List A → Bool
is_empty [] = true
is_empty (_ ∷ _) = false

-- `ReconcileReport.complete`
abbrev pub is_complete : ReconcileReport → Bool
is_complete report =
    not (is_empty report.reconciliations)
    && all_of (λ item. is_matched item.status) report.reconciliations

-- `ReconcileReport.mismatched`
abbrev pub has_mismatch : ReconcileReport → Bool
has_mismatch report = any_of (λ item. is_mismatched item.status) report.reconciliations

-- The receipt of an event that the loop does not skip.
unfoldable pub receipt_of : Event → Option Fields
unfolding as_obj get is_str
receipt_of event =
    if is_str "outcome" (get "event_type" event) && is_str "succeeded" (get "status" event)
    then as_obj (get "receipt" event)
    else none

module _ (python_str : Json → String) where
  -- `str(event.get(k, default))`
  abbrev pub text_or : String → Option Json → String
  text_or default none = default
  text_or default (some v) = python_str v

  -- The comparison of one value of the receipt, with the rest of the loop.
  abbrev pub compare_field : String → Json → Option Json → Option Mismatch → Option Mismatch
  compare_field k claimed none rest = some (no_field k)
  compare_field k claimed (some actual) rest =
      if str_eq (python_str actual) (python_str claimed)
      then rest
      else some (other_value k claimed actual)

  -- `_first_mismatch`
  unfoldable pub first_mismatch : Fields → Fields → Option Mismatch
  unfolding find
  first_mismatch end record_of = none
  first_mismatch (field k claimed rest) record_of =
      compare_field k claimed (find k record_of) (first_mismatch rest record_of)

  abbrev pub status_of : Option Mismatch → Status
  status_of none = matched
  status_of (some m) = mismatched m

  module _ (first_500 : String → String) where
    -- The branches on what `fetch` came to.
    unfoldable pub judge : Fields → Answer → Status
    unfolding first_mismatch
    judge receipt (failed e) = fetch_error (first_500 e)
    judge receipt unknown = provider_unknown
    judge receipt (provider_state s) = status_of (first_mismatch receipt s)

    unfoldable pub item_of : Event → Fields → Answer → ReceiptReconciliation
    unfolding judge find
    item_of event receipt answer = record {
      decision_event_id = text_or "" (find "decision_event_id" event);
      outcome_event_id = text_or "" (find "event_id" event);
      action_name = text_or "<unknown>" (find "action_name" event);
      receipt = receipt;
      status = judge receipt answer;
    }

    module _ {ℓ} {S : Type ℓ} (fetch : Fields → S → Answer × S) where
      -- The body of the loop, with the rest of it.
      unfoldable pub reconcile_event :
          Event
          → Option Fields
          → (S → List ReceiptReconciliation × S)
          → S
          → List ReceiptReconciliation × S
      unfolding item_of
      reconcile_event event none rest s = rest s
      reconcile_event event (some receipt) rest s =
          let answered = fetch receipt s in
          let done = rest answered.1 in (item_of event receipt answered.0 ∷ done.0, done.1)

      -- The loop over the events.
      unfoldable pub reconcile_events : List Event → S → List ReceiptReconciliation × S
      unfolding receipt_of reconcile_event
      reconcile_events [] s = ([], s)
      reconcile_events (event ∷ events) s =
          reconcile_event event (receipt_of event) (λ t. reconcile_events events t) s

      -- `reconcile_verified_snapshot`; none is the EvidenceAuditError.
      unfoldable pub reconcile_verified_snapshot :
          VerificationResult → List Event → S → Option ReconcileReport × S
      unfolding reconcile_events
      reconcile_verified_snapshot verification events s =
          if verification.valid
          then (let done = reconcile_events events s in
              (some (record { reconciliations = done.0 }), done.1))
          else (none, s)
