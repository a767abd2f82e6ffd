-- ===== src/Engine/Built.antt =====
-- What `_build_atomic` of src/tesera/engine.py records.
use tesera.Common.{
  Bool, true, false, Option, none, some, String, ◌≡◌, refl, ◌∙◌, str_eq, Bool-cases, inl, inr,
  if◌then◌else◌,
}
use tesera.Json.{Fields, Event, bool, str, end, find}
use tesera.Verification.{value, Crypto}
use tesera.Engine.{
  Call, Decision, Stamp, opt, update, base_payload, duplicate_extra, allowed_extra, build_atomic,
  is_duplicate, text_field, int_field, verdict,
}
use tesera.Engine.Payload.{find_last, or_else, find-update, find_last-opt, finalize_event-find}

duplicate_options :
    (k : String) (call : Call) (prior_id : Option String)
    → str_eq "spend_cents" k ≡ false
    → str_eq "duplicate_of" k ≡ false
    → str_eq "metadata" k ≡ false
    → find_last k (
        opt "spend_cents"
          (int_field call.spend_cents)
          (opt "duplicate_of" (text_field prior_id) (opt "metadata" call.metadata end)))
      ≡ none
unfolding find_last
duplicate_options k call prior_id s d m =
    find_last-opt k "spend_cents" _ _ s
    ∙ find_last-opt k "duplicate_of" _ _ d
    ∙ find_last-opt k "metadata" _ _ m

allowed_options :
    (k : String) (call : Call) (key : Option String) (decision : Decision)
    → str_eq "approved_by" k ≡ false
    → str_eq "idempotency_key" k ≡ false
    → str_eq "spend_cents" k ≡ false
    → str_eq "dry_run" k ≡ false
    → str_eq "metadata" k ≡ false
    → find_last k (
        opt "approved_by" (text_field decision.approved_by) (
          opt "idempotency_key" (text_field key) (
            opt "spend_cents" (int_field call.spend_cents) (
              opt "dry_run"
                (if call.dry_run then some (bool true) else none)
                (opt "metadata" call.metadata end)))))
      ≡ none
unfolding find_last
allowed_options k call key decision a i s d m =
    find_last-opt k "approved_by" _ _ a
    ∙ find_last-opt k "idempotency_key" _ _ i
    ∙ find_last-opt k "spend_cents" _ _ s
    ∙ find_last-opt k "dry_run" _ _ d
    ∙ find_last-opt k "metadata" _ _ m

key_options :
    (call : Call)
    → find_last "idempotency_key" (
        opt "spend_cents" (int_field call.spend_cents) (
          opt "dry_run"
            (if call.dry_run then some (bool true) else none)
            (opt "metadata" call.metadata end)))
      ≡ none
unfolding find_last
key_options call =
    find_last-opt "idempotency_key" "spend_cents" _ _ refl
    ∙ find_last-opt "idempotency_key" "dry_run" _ _ refl
    ∙ find_last-opt "idempotency_key" "metadata" _ _ refl

-- The key of a call that is no duplicate.
allowed_key :
    (call : Call) (key : String) (decision : Decision)
    → find_last "idempotency_key" (
        opt "approved_by" (text_field decision.approved_by) (
          opt "idempotency_key" (some (str key)) (
            opt "spend_cents" (int_field call.spend_cents) (
              opt "dry_run"
                (if call.dry_run then some (bool true) else none)
                (opt "metadata" call.metadata end)))))
      ≡ some (str key)
unfolding find_last opt
allowed_key call key decision =
    find_last-opt "idempotency_key" "approved_by" (text_field decision.approved_by) _ refl
    ∙ rw (key_options call, find_last) refl

-- The payload of the decision.
abbrev pub decision_payload :
    Stamp → Call → Decision → String → Bool → Option String → Option String → Fields
decision_payload stamp call decision key in_process previous_hash prior_id =
    update (base_payload stamp call.contract "decision" previous_hash) (
      if is_duplicate in_process prior_id
      then duplicate_extra call key prior_id
      else allowed_extra call decision (some key))

-- The fields that the idempotency check reads, in a decision's event or payload.
pub record IsDecision (stamp : Stamp) (call : Call) (key : String) (verdict_of : String)
    (event : Fields) : Type 0 where
  pub event_type : find "event_type" event ≡ some (str "decision")
  pub event_id : find "event_id" event ≡ some (str stamp.event_id)
  pub action_name : find "action_name" event ≡ some (str call.contract.action_name)
  pub idempotency_key : find "idempotency_key" event ≡ some (str key)
  pub decision : find "decision" event ≡ some (str verdict_of)

abbrev pub verdict_of : Decision → Bool → Option String → String
verdict_of decision in_process prior_id =
    if is_duplicate in_process prior_id then "denied" else verdict decision.allowed

duplicate-IsDecision :
    (stamp : Stamp) (call : Call) (key : String) (previous_hash prior_id : Option String)
    → IsDecision stamp call key "denied" (
        update
          (base_payload stamp call.contract "decision" previous_hash)
          (duplicate_extra call key prior_id))
unfolding find find_last
duplicate-IsDecision stamp call key previous_hash prior_id =
    let base = base_payload stamp call.contract "decision" previous_hash in
    let extra = duplicate_extra call key prior_id in
    record {
      event_type =
          find-update "event_type" extra base
          ∙ rw (duplicate_options "event_type" call prior_id refl refl refl, or_else, find_last)
              refl;
      event_id =
          find-update "event_id" extra base
          ∙ rw (duplicate_options "event_id" call prior_id refl refl refl, or_else, find_last) refl;
      action_name =
          find-update "action_name" extra base
          ∙ rw (duplicate_options "action_name" call prior_id refl refl refl, or_else, find_last)
              refl;
      idempotency_key =
          find-update "idempotency_key" extra base
          ∙ rw
              (duplicate_options "idempotency_key" call prior_id refl refl refl, or_else, find_last)
              refl;
      decision =
          find-update "decision" extra base
          ∙ rw (duplicate_options "decision" call prior_id refl refl refl, or_else, find_last) refl;
    }

allowed-IsDecision :
    (stamp : Stamp) (call : Call) (decision : Decision) (key : String)
    (previous_hash : Option String)
    → IsDecision stamp call key (verdict decision.allowed) (
        update
          (base_payload stamp call.contract "decision" previous_hash)
          (allowed_extra call decision (some key)))
unfolding find find_last
allowed-IsDecision stamp call decision key previous_hash =
    let base = base_payload stamp call.contract "decision" previous_hash in
    let extra = allowed_extra call decision (some key) in
    record {
      event_type =
          find-update "event_type" extra base
          ∙ rw
              (
                allowed_options "event_type" call (some key) decision refl refl refl refl refl,
                or_else,
                find_last,
              )
              refl;
      event_id =
          find-update "event_id" extra base
          ∙ rw
              (
                allowed_options "event_id" call (some key) decision refl refl refl refl refl,
                or_else,
                find_last,
              )
              refl;
      action_name =
          find-update "action_name" extra base
          ∙ rw
              (
                allowed_options "action_name" call (some key) decision refl refl refl refl refl,
                or_else,
                find_last,
              )
              refl;
      idempotency_key =
          find-update "idempotency_key" extra base
          ∙ rw (allowed_key call key decision, or_else, find_last) refl;
      decision =
          find-update "decision" extra base
          ∙ rw
              (
                allowed_options "decision" call (some key) decision refl refl refl refl refl,
                or_else,
                find_last,
              )
              refl;
    }

decision_payload-IsDecision :
    (stamp : Stamp) (call : Call) (decision : Decision) (key : String) (in_process : Bool)
    (previous_hash prior_id : Option String)
    → IsDecision stamp call key
        (verdict_of decision in_process prior_id)
        (decision_payload stamp call decision key in_process previous_hash prior_id)
unfolding find find_last
decision_payload-IsDecision stamp call decision key in_process previous_hash prior_id =
    elim (Bool-cases (is_duplicate in_process prior_id)) [
      | inl y ↦ rw y (duplicate-IsDecision stamp call key previous_hash prior_id)
      | inr n ↦ rw n (allowed-IsDecision stamp call decision key previous_hash)
    ]

module _ (c : Crypto) where
  -- The event that `_build_atomic` returns.
  pub build_atomic-IsDecision :
      (stamp : Stamp) (call : Call) (decision : Decision) (key : String) (in_process : Bool)
      (previous_hash prior_id : Option String) (event : Event)
      → build_atomic c stamp call decision key in_process previous_hash prior_id ≡ value event
      → IsDecision stamp call key (verdict_of decision in_process prior_id) event
  unfolding build_atomic
  build_atomic-IsDecision stamp call decision key in_process previous_hash prior_id event h =
      let payload = decision_payload stamp call decision key in_process previous_hash prior_id in
      let d =
        decision_payload-IsDecision stamp call decision key in_process previous_hash prior_id in
      record {
        event_type =
            finalize_event-find c stamp.sign "event_type" payload event refl refl h ∙ d.event_type;
        event_id =
            finalize_event-find c stamp.sign "event_id" payload event refl refl h ∙ d.event_id;
        action_name =
            finalize_event-find c stamp.sign "action_name" payload event refl refl h
            ∙ d.action_name;
        idempotency_key =
            finalize_event-find c stamp.sign "idempotency_key" payload event refl refl h
            ∙ d.idempotency_key;
        decision =
            finalize_event-find c stamp.sign "decision" payload event refl refl h ∙ d.decision;
      }
