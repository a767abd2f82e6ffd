-- ===== src/Verification.antt =====
-- The offline verifier of src/tesera/verification.py: the issues that it reports, the exceptions
-- that can leave it, and the cryptography that it calls.
pub mod Shape
pub mod Event
pub mod Journal
pub mod Witness
pub mod Coverage
pub mod Facts
pub mod Chain
pub mod Sound
pub mod Covered
pub mod Loaded
pub mod Valid
pub mod Tamper
pub mod Toy
mod Tests
use tesera.Common.{
  ℕ, Bool, true, false, Option, none, some, List, [], ◌∷◌, ◌++◌, String, ◌≡◌, refl, any_of,
  if◌then◌else◌,
}
use tesera.Common.Int.{ℤ}
use tesera.Json.{Json, Fields, arr, obj, is_str}

-- The `code` of a `VerificationIssue`.
pub data IssueCode : Type 0 where
  unreadable malformed_json malformed_event unknown_schema unknown_event_type : IssueCode
  missing_fields checkpoint_head_mismatch checkpoint_bad_count : IssueCode
  resolution_bad_value resolution_bad_reference resolution_bad_note : IssueCode
  countersignature_orphan countersignature_count_mismatch : IssueCode
  countersignature_head_mismatch countersignature_bad_count outcome_bad_receipt : IssueCode
  archive_not_first archive_bad_count archive_bad_path : IssueCode
  rotation_signer_mismatch rotation_bad_successor rotation_bad_fingerprint : IssueCode
  rotation_fingerprint_mismatch rotation_self_successor : IssueCode
  chain_break hash_mismatch unknown_key bad_signature : IssueCode
  checkpoint_witness_unreadable checkpoint_witness_invalid : IssueCode
  checkpoint_not_found checkpoint_truncation : IssueCode

-- `VerificationIssue`; the message, which only words the code, is left out.
pub record VerificationIssue : Type 0 where
  pub line_number : ℕ
  pub code : IssueCode

-- What Python raises where the verifier does not catch it.
pub data Exception : Type 0 where
  type_error key_error value_error overflow_error canonicalization_error journal_error : Exception

pub data Checked {ℓ} (A : Type ℓ) : Type ℓ where
  value : A → Checked A
  raises : Exception → Checked A

infixl 5 ◌>>=◌
abbrev pub ◌>>=◌ {ℓ κ} : {A : Type ℓ} {B : Type κ} → Checked A → (A → Checked B) → Checked B
value a >>= f = f a
raises e >>= f = raises e

-- SHA-256 over the canonical JSON bytes of a payload, in hex, and the check of a base64 text as
-- an Ed25519 signature of the digest under a key.
pub record Crypto : Type 1 where
  pub PublicKey : Type 0
  pub digest : Fields → String
  pub verify : PublicKey → String → String → Bool

-- `str(v)` of a JSON value that is no text, and `int(s)` of a text, none for a ValueError.
pub record Python : Type 0 where
  pub repr : Json → String
  pub parse_int : String → Option ℤ

-- `v in s` for a frozenset of texts: a list or a dict is not hashable.
unfoldable pub in_set : List String → Json → Checked Bool
unfolding is_str
in_set texts (arr xs) = raises type_error
in_set texts (obj fs) = raises type_error
in_set texts v = value (any_of (λ s. is_str s v) texts)

-- The issue, if the test holds.
abbrev pub issue_if : Bool → IssueCode → List IssueCode
issue_if b code = if b then code ∷ [] else []
