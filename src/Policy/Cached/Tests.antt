-- ===== src/Policy/Cached/Tests.antt =====
-- A run of `CachedApprovalProvider` with an eviction, and its theorems at it.
use tesera.Common.{
  ℕ, ◌+◌, ◌⊎◌, ◌≤◌, ◌≡◌, refl, true, false, none, List, [], ◌∷◌, arith, length, String,
}
use tesera.Policy.Cached.{
  store, CacheKey, CachedApprovalProvider, Readings, key_of, look_up, after_inner, decide,
}
use tesera.Policy.{
  ApprovalRequest, ApprovalDecision, allow, deny, text, cached_approval, returned, Provider,
}
use tesera.Policy.Cached.Size.{Region, look_up_at, store_at, run_regions, size_bound}
use tesera.Policy.Cached.Calls.{Step, asked, answered, run_steps, GrantedBy, cached_is_granted}

abbrev key : String → CacheKey
key input = record {
  contract_hash = "c";
  input_hash = input;
  risk = "high";
  approval_mode = "required";
  spend_cents = none;
}

abbrev fresh : CachedApprovalProvider
fresh = record { ttl = 10; max_entries = 2; cache = [] }

-- The third key evicts the first.
abbrev regions : List Region
regions =
    look_up_at 1 (key "a")
    ∷ store_at 1 1 (key "a")
    ∷ store_at 2 2 (key "b")
    ∷ store_at 3 3 (key "c")
    ∷ []

first_evicted : (look_up 5 (key "a") (run_regions regions fresh)).0 ≡ false
unfolding look_up run_regions store
first_evicted = refl

third_hit : (look_up 5 (key "c") (run_regions regions fresh)).0 ≡ true
unfolding look_up run_regions store
third_hit = refl

third_expired : (look_up 13 (key "c") (run_regions regions fresh)).0 ≡ false
unfolding look_up run_regions store
third_expired = refl

size_bound_example : length (run_regions regions fresh).cache ≤ 2
size_bound_example = size_bound regions fresh (omega arith) (omega arith)

abbrev request : String → ApprovalRequest
request risk = record {
  action_name = "refund";
  risk = risk;
  approval_mode = "required";
  redacted_input_summary = "";
  input_hash = "i";
  contract_hash = "c";
  spend_cents = none;
}

abbrev readings : ℕ → Readings
readings t = record { at_look_up = t; at_store = t; at_sweep = t }

-- It counts its calls, and denies.
abbrev inner : Provider ℕ
inner r n = (returned (deny (text "no")), n + 1)

abbrev yes : ApprovalDecision
yes = allow (text "yes")

-- A low risk was denied and a high risk allowed.
abbrev steps : List (Step ℕ)
steps =
    asked 1 (request "low")
    ∷ asked 1 (request "high")
    ∷ answered (readings 2) (request "low") (inner (request "low") 0)
    ∷ answered (readings 3) (request "high") (returned yes, 2)
    ∷ []

abbrev cached : CachedApprovalProvider
cached = run_steps inner steps fresh

served_high :
    decide inner (readings 5) (request "high") cached 2
    ≡ (returned (allow cached_approval), cached, 2)
unfolding decide run_steps
served_high = refl

asked_low :
    decide inner (readings 5) (request "low") cached 2 ≡ (returned (deny (text "no")), cached, 3)
unfolding decide run_steps
asked_low = refl

cached_is_granted_example :
    ((decide inner (readings 5) (request "high") cached 2
        ≡ (returned (allow cached_approval), cached, 2))
      × GrantedBy 10 5 (request "high") steps)
    ⊎ (decide inner (readings 5) (request "high") cached 2
        ≡ after_inner inner
            (readings 5)
            (request "high")
            (look_up 5 (key_of (request "high")) cached).1
            (inner (request "high") 2))
cached_is_granted_example = cached_is_granted inner (readings 5) (request "high") 2 steps fresh refl
