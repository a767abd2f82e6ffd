-- ===== src/Engine.antt =====
-- The decision of src/tesera/engine.py: what happens to a guarded call before it runs.
pub mod Payload
pub mod Built
pub mod AtMostOnce
pub mod Prepare
mod Tests
use tesera.Common.{
  ℕ, Bool, true, false, Option, none, some, List, [], ◌∷◌, String, ◌||◌, if◌then◌else◌,
}
use tesera.Common.Int.{ℤ}
use tesera.Json.{Json, Fields, Event, null, bool, int, str, field, end}
use tesera.Json.Payload.{set}
use tesera.Verification.{Checked, value, raises, ◌>>=◌, Crypto}
use tesera.Journal.Append.{Journal, Appended, append_event, append_event_atomic, finalize_event}

-- The fields of an `ActionContract` that the events record.
pub record ActionContract : Type 0 where
  pub action_id : String
  pub action_name : String
  pub contract_hash : String
  pub risk : String
  pub approval_mode : String

-- What the steps before the approval computed for a call.
pub record Call : Type 0 where
  pub contract : ActionContract
  pub input_summary : Json
  pub parameter_retention : Json
  pub input_hash : String
  pub spend_cents : Option ℤ
  pub metadata : Option Json
  pub dry_run : Bool

-- The decision of `_evaluate_approval`, which is allowed or denied, with its scrubbed texts.
pub record Decision : Type 0 where
  pub allowed : Bool
  pub reason : String
  pub approved_by : Option String

-- The signing identity, and the values of `new_event_id()` and `utc_timestamp()`.
pub record Stamp : Type 0 where
  pub key_id : String
  pub sign : String → String
  pub event_id : String
  pub timestamp_utc : String

-- A field that is there if it has a value.
unfoldable pub opt : String → Option Json → Fields → Fields
opt k none fs = fs
opt k (some v) fs = field k v fs

-- `payload.update(extra)`
unfoldable pub update : Fields → Fields → Fields
unfolding set
update payload end = payload
update payload (field k v extra) = update (set k v payload) extra

abbrev pub text_field : Option String → Option Json
text_field none = none
text_field (some s) = some (str s)

abbrev pub int_field : Option ℤ → Option Json
int_field none = none
int_field (some n) = some (int n)

abbrev pub hash_field : Option String → Json
hash_field none = null
hash_field (some h) = str h

abbrev pub verdict : Bool → String
verdict b = if b then "allowed" else "denied"

-- The payload that the events of a contract share.
abbrev pub base_payload : Stamp → ActionContract → String → Option String → Fields
base_payload stamp contract event_type previous_hash = field "schema_version" (str "1") (
    field "event_type" (str event_type) (
      field "event_id" (str stamp.event_id) (
        field "action_id" (str contract.action_id) (
          field "action_name" (str contract.action_name) (
            field "contract_hash" (str contract.contract_hash) (
              field "timestamp_utc" (str stamp.timestamp_utc) (
                field "key_id" (str stamp.key_id)
                  (field "previous_event_hash" (hash_field previous_hash) end))))))))

-- `_duplicate_extra`
abbrev pub duplicate_extra : Call → String → Option String → Fields
duplicate_extra call key prior_id = field "decision" (str "denied") (
    field "risk" (str call.contract.risk) (
      field "approval_mode" (str call.contract.approval_mode) (
        field "redacted_input_summary" call.input_summary (
          field "parameter_retention" call.parameter_retention (
            field "input_hash" (str call.input_hash) (
              field "idempotency_key" (str key) (
                field "approval_reason"
                  (str "duplicate idempotency key; already reserved or completed")
                  (opt "spend_cents" (int_field call.spend_cents) (
                    opt "duplicate_of" (text_field prior_id)
                      (opt "metadata" call.metadata end))))))))))

-- `_allowed_extra`
abbrev pub allowed_extra : Call → Decision → Option String → Fields
allowed_extra call decision key = field "decision" (str (verdict decision.allowed)) (
    field "risk" (str call.contract.risk) (
      field "approval_mode" (str call.contract.approval_mode) (
        field "redacted_input_summary" call.input_summary (
          field "parameter_retention" call.parameter_retention (
            field "input_hash" (str call.input_hash) (
              field "approval_reason" (str decision.reason) (
                opt "approved_by" (text_field decision.approved_by) (
                  opt "idempotency_key" (text_field key) (
                    opt "spend_cents" (int_field call.spend_cents) (
                      opt "dry_run" (if call.dry_run then some (bool true) else none)
                        (opt "metadata" call.metadata end)))))))))))

abbrev is_some : Option String → Bool
is_some none = false
is_some (some _) = true

-- `_build_atomic`: whether the key was completed in this process, and the blocking decision that
-- the journal names, make the call a duplicate.
abbrev pub is_duplicate : Bool → Option String → Bool
is_duplicate in_process prior_id = is_some prior_id || in_process

module _ (c : Crypto) where
  unfoldable pub build_atomic :
      Stamp → Call → Decision → String → Bool → Option String → Option String → Checked Event
  unfolding opt update finalize_event
  build_atomic stamp call decision key in_process previous_hash prior_id =
      finalize_event c stamp.sign (
        update (base_payload stamp call.contract "decision" previous_hash) (
          if is_duplicate in_process prior_id
          then duplicate_extra call key prior_id
          else allowed_extra call decision (some key)))

  -- Step 7 of `_prepare_execution`, for a journal file and a call with a key.
  unfoldable pub append_decision : Stamp → Call → Decision → String → Bool → Journal → Appended
  unfolding build_atomic append_event_atomic
  append_decision stamp call decision key in_process journal =
      append_event_atomic journal call.contract.action_name key
        (build_atomic stamp call decision key in_process)

  -- `_append_event`
  unfoldable pub append_extra : Stamp → ActionContract → String → Fields → Journal → Appended
  unfolding update finalize_event append_event
  append_extra stamp contract event_type extra journal = append_event journal (λ previous_hash.
      finalize_event c stamp.sign
        (update (base_payload stamp contract event_type previous_hash) extra))
