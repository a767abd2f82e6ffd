-- ===== src/Policy/RateLimit.antt =====
-- `RateLimitProvider` of src/tesera/policy.py: a sliding window of allowances. A clock reading is
-- a number of ticks; `t <= now - window` is written `t + window <= now`, since `-` stops at 0. The
-- source takes the reading before it takes the lock: a history lists the calls in the order in which
-- they get the lock, so that its readings need not ascend.
pub mod Window
pub mod Memory
mod Tests
use tesera.Common.{
  ℕ, zero, suc, ◌+◌, Bool, Option, none, some, List, [], ◌∷◌, ◌++◌, leb, length, if◌then◌else◌,
}
use tesera.Policy.{
  ApprovalRequest, ApprovalDecision, allow, deny, rate_limit_exceeded, within_rate_limit,
}

pub record RateLimitProvider : Type 0 where
  pub max_calls : ℕ
  pub window : ℕ
  pub attempts : List ℕ

-- `__init__`; none is the ValueError.
pub init : ℕ → ℕ → Option RateLimitProvider
init zero window = none
init (suc n) zero = none
init (suc n) (suc w) = some (record { max_calls = suc n; window = suc w; attempts = [] })

-- The test `self._attempts[0] <= cutoff`.
abbrev pub is_expired : ℕ → ℕ → ℕ → Bool
is_expired window now t = leb (t + window) now

-- The loop that pops from the left.
unfoldable pub drop_expired : ℕ → ℕ → List ℕ → List ℕ
drop_expired window now [] = []
drop_expired window now (t ∷ ts) =
    if is_expired window now t then drop_expired window now ts else t ∷ ts

-- The decision on the attempts that are left, with the new attempts.
abbrev pub admit : ℕ → ℕ → ℕ → List ℕ → ApprovalDecision × List ℕ
admit max_calls window now kept =
    if leb max_calls (length kept)
    then (deny (rate_limit_exceeded max_calls window), kept)
    else (allow within_rate_limit, kept ++ now ∷ [])

unfoldable pub decide :
    ℕ → ApprovalRequest → RateLimitProvider → ApprovalDecision × RateLimitProvider
unfolding drop_expired
decide now request p =
    let (d, attempts) = admit p.max_calls p.window now (drop_expired p.window now p.attempts) in
    (d, record p { attempts = attempts })
