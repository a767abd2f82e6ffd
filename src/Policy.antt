-- ===== src/Policy.antt =====
-- The approval interface of src/tesera/approval.py, which the providers of src/tesera/policy.py
-- implement: a request, a decision with its reason, and a provider as a function of its state.
-- A reason text is a constructor that carries the values of the source's f-string.
pub mod Budget
pub mod RateLimit
pub mod Cached
pub mod Combined
pub mod Quorum
pub mod Spending
pub mod Rules
pub mod PolicyFile
pub mod Attested
pub mod StateFile
pub mod FileBudget
pub mod FileSpending
use tesera.Common.{
  ℕ, String, Bool, true, false, Option, none, some, List, [], ◌∷◌, ◌≡◌, str_eq, ◌&&◌, if◌then◌else◌,
}
use tesera.Common.Int.{ℤ}

pub record ApprovalRequest : Type 0 where
  pub action_name : String
  pub risk : String
  pub approval_mode : String
  pub redacted_input_summary : String
  pub input_hash : String
  pub contract_hash : String
  pub spend_cents : Option ℤ

-- The texts that a decision holds: "allowed", "denied", or what a foreign provider wrote.
pub data Verdict : Type 0 where
  allowed denied : Verdict
  invalid : String → Verdict

mutual
  pub data Reason : Type 0 where
    -- A text that the source passes through as it is.
    text : String → Reason
    budget_exhausted_for : String → ℤ → ℕ → Reason
    budget_exhausted : ℤ → ℕ → Reason
    within_budget : ℤ → ℕ → Reason
    rate_limit_exceeded : ℕ → ℕ → Reason
    within_rate_limit : Reason
    cached_approval : Reason
    no_spend_declared : Reason
    spending_exhausted_for : String → ℤ → ℤ → ℕ → Reason
    spending_exhausted : ℤ → ℤ → ℕ → Reason
    within_spending : ℤ → ℕ → Reason
    state_corrupt : Reason
    state_unavailable : Reason
    denied_by_policy : Reasons → Reason
    allowed_by_all : Reasons → Reason
    allowed_by_policy : Reasons → Reason
    denied_by_all : Reasons → Reason
    quorum_reached : ℕ → ℕ → ℕ → Reason
    quorum_missed : ℕ → ℕ → ℕ → Reasons → Reason
    errored : String → Reason
    matched_rule : String → String → Reason

  -- `list[str]` of reasons
  pub data Reasons : Type 0 where
    nil : Reasons
    cons : Reason → Reasons → Reasons

pub record ApprovalDecision : Type 0 where
  pub decision : Verdict
  pub reason : Reason
  pub approved_by : Option String

-- The verdict that a text is.
abbrev pub verdict : String → Verdict
verdict s = if str_eq s "allowed" then allowed else if str_eq s "denied" then denied else invalid s

abbrev pub is_allowed : Verdict → Bool
is_allowed allowed = true
is_allowed denied = false
is_allowed (invalid _) = false

-- `ApprovalDecision(DECISION_ALLOWED, reason)`
abbrev pub allow : Reason → ApprovalDecision
allow r = record { decision = allowed; reason = r; approved_by = none }

-- `ApprovalDecision(DECISION_DENIED, reason)`
abbrev pub deny : Reason → ApprovalDecision
deny r = record { decision = denied; reason = r; approved_by = none }

-- `reasons.append(reason)`
unfoldable pub append_reason : Reasons → Reason → Reasons
append_reason nil r = cons r nil
append_reason (cons q rs) r = cons q (append_reason rs r)

-- A history of calls of one provider that holds the state `S`, oldest first: each request with
-- the decision that it got.
unfoldable pub decide_all {ℓ} :
    {S : Type ℓ}
    → (ApprovalRequest → S → ApprovalDecision × S)
    → List ApprovalRequest
    → S
    → List (ApprovalRequest × ApprovalDecision) × S
decide_all decide [] s = ([], s)
decide_all decide (request ∷ rest) s =
    let (d, s') = decide request s in
    let (ds, s'') = decide_all decide rest s' in ((request, d) ∷ ds, s'')

-- The calls of a history that were allowed.
abbrev pub was_allowed : ApprovalRequest × ApprovalDecision → Bool
was_allowed (_, d) = is_allowed d.decision

-- The calls of one action, and those of them that were allowed.
abbrev pub is_action : String → ApprovalRequest → Bool
is_action a request = str_eq request.action_name a

abbrev pub was_allowed_for : String → ApprovalRequest × ApprovalDecision → Bool
was_allowed_for a (request, d) = is_action a request && is_allowed d.decision

-- A call of a provider that a composed provider wraps returns or raises.
pub data Outcome : Type 0 where
  returned : ApprovalDecision → Outcome
  raised : String → Outcome

-- `ApprovalProvider`: `decide` as a function of the state that the provider reads and writes.
abbrev pub Provider {ℓ} : Type ℓ → Type ℓ
Provider S = ApprovalRequest → S → Outcome × S
