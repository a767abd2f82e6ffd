-- ===== src/Verification/Toy.antt =====
-- A digest and a signature that compute, and events under them, on which the tests run the verifier
-- of src/tesera/verification.py.
use tesera.Common.{ℕ, Option, none, some, String, str_eq, if◌then◌else◌}
use tesera.Common.Int.{pos}
use tesera.Json.{Json, Fields, Event, str, int, field, end, get, as_str}
use tesera.Verification.{Crypto, Python}

abbrev text : Option String → String
text none = ""
text (some s) = s

-- The digest of a payload is its id, and a digest signs itself.
abbrev pub toy : Crypto
toy = record {
  PublicKey = Unit {0};
  digest = λ fs. text (as_str (get "event_id" fs));
  verify = λ key digest signature. str_eq digest signature;
}

abbrev pub py : Python
py = record { repr = λ v. ""; parse_int = λ s. none }

abbrev pub trusted : String → Option (Unit {0})
trusted key_id = if str_eq key_id "k1" then some tt else none

abbrev pub sealed : String → String → Json → Fields → Event
sealed id event_type previous rest = field "schema_version" (str "1") (
    field "event_type" (str event_type) (
      field "event_id" (str id) (
        field "timestamp_utc" (str "now") (
          field "key_id" (str "k1") (
            field "previous_event_hash" previous
              (field "event_hash" (str id) (field "signature" (str id) rest)))))))

abbrev pub decision : String → Json → Event
decision id previous = sealed id "decision" previous (
    field "action_id" (str "a") (
      field "action_name" (str "refund") (
        field "contract_hash" (str "c") (
          field "decision" (str "allowed") (
            field "risk" (str "high") (
              field "approval_mode" (str "required")
                (field "redacted_input_summary" (str "") (field "input_hash" (str "i") end))))))))

abbrev pub checkpoint : String → String → ℕ → Event
checkpoint id head count =
    sealed id "checkpoint" (str head)
      (field "checkpoint_count" (int (pos count)) (field "head_sha256" (str head) end))
