-- ===== src/Resolution/Tests.antt =====
-- Runs of `resolve_journal` of src/tesera/resolve.py on a journal of two decisions.
use tesera.Common.{◌≡◌, refl, true, some, [], ◌∷◌, String}
use tesera.Json.{Event, str, field, end}
use tesera.Json.Payload.{finite_fields}
use tesera.Verification.Toy.{toy}
use tesera.Journal.Append.{Journal, seal}
use tesera.Engine.{Stamp}
use tesera.Resolution.{
  bounded_note, refused, resolved, invalid_resolution, unknown_decision, not_allowed, is_known,
  resolution_payload, resolve_journal,
}
use tesera.Resolution.Recorded.{IsResolved, resolve_journal-IsResolved}

abbrev stamp : Stamp
stamp = record { key_id = "k1"; sign = λ d. d; event_id = "r1"; timestamp_utc = "now" }

abbrev decision : String → String → Event
decision id verdict = field "event_type" (str "decision") (
    field "event_id" (str id) (
      field "action_id" (str "a") (
        field "action_name" (str "refund") (
          field "contract_hash" (str "c")
            (field "decision" (str verdict) (field "event_hash" (str id) end))))))

abbrev journal : Journal
journal = decision "d1" "allowed" ∷ decision "d2" "denied" ∷ []

abbrev event : Event
event = seal "r1" "r1" (
    resolution_payload stamp (str "a") (str "refund") (str "c") (some "d2") "d1"
      "confirmed_completed" "seen at the provider")

run_resolved :
    resolve_journal toy stamp "d1" "confirmed_completed" "seen at the provider" journal
    ≡ resolved event (decision "d1" "allowed" ∷ decision "d2" "denied" ∷ event ∷ [])
unfolding resolve_journal finite_fields bounded_note
run_resolved = refl

run_denied : resolve_journal toy stamp "d2" "confirmed_completed" "" journal ≡ refused not_allowed
unfolding resolve_journal
run_denied = refl

run_unknown :
    resolve_journal toy stamp "d3" "confirmed_completed" "" journal ≡ refused unknown_decision
unfolding resolve_journal
run_unknown = refl

run_invalid : resolve_journal toy stamp "d1" "maybe" "" journal ≡ refused invalid_resolution
unfolding resolve_journal
run_invalid = refl

resolve_journal-IsResolved_example :
    (is_known "confirmed_completed" ≡ true)
    × IsResolved toy stamp "d1" "confirmed_completed" journal event
        (decision "d1" "allowed" ∷ decision "d2" "denied" ∷ event ∷ [])
resolve_journal-IsResolved_example =
    resolve_journal-IsResolved toy stamp "d1" "confirmed_completed" "seen at the provider" journal
      event _ run_resolved
