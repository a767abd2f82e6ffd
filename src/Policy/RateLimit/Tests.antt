-- ===== src/Policy/RateLimit/Tests.antt =====
-- A run of `RateLimitProvider`, and its theorems at it.
use tesera.Common.{◌≡◌, refl, true, none, List, [], ◌∷◌, arith}
use tesera.Policy.{ApprovalRequest, is_allowed}
use tesera.Policy.RateLimit.{RateLimitProvider, decide}
use tesera.Policy.RateLimit.Memory.{Call, allowed_at, after, decide_exact}

abbrev request : ApprovalRequest
request = record {
  action_name = "refund";
  risk = "high";
  approval_mode = "required";
  redacted_input_summary = "";
  input_hash = "";
  contract_hash = "";
  spend_cents = none;
}

abbrev fresh : RateLimitProvider
fresh = record { max_calls = 2; window = 10; attempts = [] }

abbrev burst : List Call
burst = (1, request) ∷ (3, request) ∷ (4, request) ∷ (11, request) ∷ (12, request) ∷ []

allowed_burst : allowed_at burst fresh ≡ 1 ∷ 3 ∷ 11 ∷ []
unfolding allowed_at decide
allowed_burst = refl

abbrev full : RateLimitProvider
full = record { max_calls = 2; window = 10; attempts = 1 ∷ 3 ∷ [] }

abbrev denied_burst : List Call
denied_burst = (4, request) ∷ (5, request) ∷ (9, request) ∷ []

all_denied : allowed_at denied_burst full ≡ []
unfolding allowed_at decide
all_denied = refl

decide_exact_example :
    (decide 11 request (after denied_burst full) ≡ decide 11 request full)
    × (is_allowed (decide 11 request (after denied_burst full)).0.decision ≡ true)
decide_exact_example =
    decide_exact 11 0 request denied_burst full (omega arith, (omega arith, (omega arith, tt)))
      all_denied (omega arith)
