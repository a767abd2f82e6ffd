-- ===== src/Checkpoint.antt =====
-- `checkpoint_journal` of src/tesera/checkpoint.py, without the write of the witness file, whose
-- one line is the event.
pub mod Replay
pub mod Sealed
pub mod Verifies
mod Tests
use tesera.Common.{ℕ, Option, String}
use tesera.Common.Int.{pos}
use tesera.Json.{Json, Fields, Event, int, str, field, end}
use tesera.Verification.{Checked, Crypto}
use tesera.Journal.Append.{Journal, Appended, append_checkpoint, finalize_event}
use tesera.Engine.{Stamp, hash_field}

abbrev pub checkpoint_payload : Stamp → ℕ → Option String → Fields
checkpoint_payload stamp count previous_hash = field "schema_version" (str "1") (
    field "event_type" (str "checkpoint") (
      field "event_id" (str stamp.event_id) (
        field "timestamp_utc" (str stamp.timestamp_utc) (
          field "key_id" (str stamp.key_id) (
            field "previous_event_hash" (hash_field previous_hash) (
              field "checkpoint_count" (int (pos count))
                (field "head_sha256" (hash_field previous_hash) end)))))))

unfoldable pub checkpoint_journal : Crypto → Stamp → Journal → Appended
unfolding append_checkpoint finalize_event
checkpoint_journal c stamp journal = append_checkpoint journal (λ count previous_hash.
    finalize_event c stamp.sign (checkpoint_payload stamp count previous_hash))
