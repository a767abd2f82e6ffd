-- ===== src/Policy/Cached/Calls.antt =====
-- Calls of `decide` of `CachedApprovalProvider` of src/tesera/policy.py, each of which takes the lock
-- up to twice: where an allowance from the cache comes from.
use tesera.Common.{
  ℕ, ◌+◌, ◌<◌, ◌≡◌, refl, sym, ap, ◌∙◌, true, List, [], ◌∷◌, ◌⊎◌, inl, inr, Bool-cases,
  Option-cases, ltb, if◌then◌else◌,
}
use tesera.Policy.{
  ApprovalRequest, allow, is_allowed, cached_approval, Outcome, returned, raised, Provider,
}
use tesera.Policy.Cached.{
  CachedApprovalProvider, CacheKey, Readings, key_of, look_up, look_up_entry, get, store,
  after_inner, decide,
}
use tesera.Policy.Cached.Size.{Region, look_up_at, store_at, run_region, run_regions}
use tesera.Policy.Cached.Justified.{Granted, hit_is_Granted}

-- A call looks its request up, and later, unless that hit, it goes on with an answer of the inner
-- provider, which leaves the state `S`.
pub data Step {ℓ} (S : Type ℓ) : Type ℓ where
  asked : ℕ → ApprovalRequest → Step S
  answered : Readings → ApprovalRequest → Outcome × S → Step S

-- Two requests that the cache may not tell apart.
pub record SameCall (r q : ApprovalRequest) : Type 0 where
  pub contract_hash : r.contract_hash ≡ q.contract_hash
  pub input_hash : r.input_hash ≡ q.input_hash
  pub risk : r.risk ≡ q.risk
  pub approval_mode : r.approval_mode ≡ q.approval_mode
  pub spend_cents : r.spend_cents ≡ q.spend_cents

key_of-SameCall : (r q : ApprovalRequest) → key_of r ≡ key_of q → SameCall r q
key_of-SameCall r q e = record {
  contract_hash = ap (λ k. k.contract_hash) e;
  input_hash = ap (λ k. k.input_hash) e;
  risk = ap (λ k. k.risk) e;
  approval_mode = ap (λ k. k.approval_mode) e;
  spend_cents = ap (λ k. k.spend_cents) e;
}

-- Among the steps, the inner provider answered with an allowance, for the same contract, input,
-- risk, approval mode and spend, which was stored less than `ttl` before `now`.
abbrev pub GrantedBy {ℓ} : {S : Type ℓ} → ℕ → ℕ → ApprovalRequest → List (Step S) → Type 0
GrantedBy ttl now request [] = ⊥
GrantedBy ttl now request (asked _ _ ∷ past) = GrantedBy ttl now request past
GrantedBy ttl now request (answered t r (raised e, s) ∷ past) = GrantedBy ttl now request past
GrantedBy ttl now request (answered t r (returned d, s) ∷ past) =
    ((is_allowed d.decision ≡ true) × SameCall r request × (now < t.at_store + ttl))
    ⊎ GrantedBy ttl now request past

module _ {ℓ} {S : Type ℓ} (inner : Provider S) where
  -- The cache after a step.
  unfoldable pub run_step : Step S → CachedApprovalProvider → CachedApprovalProvider
  unfolding look_up after_inner
  run_step (asked now request) c = (look_up now (key_of request) c).1
  run_step (answered now request answer) c = (after_inner inner now request c answer).1

  -- The steps of any number of calls, in the order in which they get the lock.
  unfoldable pub run_steps : List (Step S) → CachedApprovalProvider → CachedApprovalProvider
  unfolding run_step
  run_steps [] c = c
  run_steps (step ∷ steps) c = run_steps steps (run_step step c)

  -- The locked regions that the steps run.
  regions : List (Step S) → List Region
  regions [] = []
  regions (asked now request ∷ steps) = look_up_at now (key_of request) ∷ regions steps
  regions (answered t r (raised e, s) ∷ steps) = regions steps
  regions (answered t r (returned d, s) ∷ steps) =
      let rest = regions steps in
      if is_allowed d.decision then store_at t.at_store t.at_sweep (key_of r) ∷ rest else rest

  run_steps-regions :
      (steps : List (Step S)) (c : CachedApprovalProvider)
      → run_steps steps c ≡ run_regions (regions steps) c
  unfolding run_steps regions run_regions run_region after_inner
  run_steps-regions [] c = refl
  run_steps-regions (asked now request ∷ steps) c =
      run_steps-regions steps (look_up now (key_of request) c).1
  run_steps-regions (answered t r (raised e, s) ∷ steps) c = run_steps-regions steps c
  run_steps-regions (answered t r (returned d, s) ∷ steps) c =
      elim (Bool-cases (is_allowed d.decision)) [
        | inl y ↦ rw y (run_steps-regions steps (store t.at_store t.at_sweep (key_of r) c))
        | inr n ↦ rw n (run_steps-regions steps c)
      ]

  Granted-GrantedBy :
      (ttl now : ℕ) (request : ApprovalRequest) (steps : List (Step S))
      → Granted ttl now (key_of request) (regions steps)
      → GrantedBy ttl now request steps
  unfolding regions
  Granted-GrantedBy ttl now request [] g = absurd g
  Granted-GrantedBy ttl now request (asked _ _ ∷ steps) g =
      Granted-GrantedBy ttl now request steps g
  Granted-GrantedBy ttl now request (answered t r (raised e, s) ∷ steps) g =
      Granted-GrantedBy ttl now request steps g
  Granted-GrantedBy ttl now request (answered t r (returned d, s) ∷ steps) g =
      elim (Bool-cases (is_allowed d.decision)) [
        | inr n ↦ inr (Granted-GrantedBy ttl now request steps (rw n at g))
        | inl y ↦ elim (rw y at g) [
          | inl h ↦ inl (y, key_of-SameCall r request h.0, h.1)
          | inr h ↦ inr (Granted-GrantedBy ttl now request steps h)
        ]
      ]

  hit_keeps :
      (now : ℕ) (key : CacheKey) (c : CachedApprovalProvider)
      → (look_up now key c).0 ≡ true
      → (look_up now key c).1 ≡ c
  unfolding look_up look_up_entry
  hit_keeps now key c h = elim (Option-cases (get key c.cache)) [
    | inl e ↦ absurd (cc (rw (e, look_up_entry) at h))
    | inr (x, e) ↦ elim (Bool-cases (ltb now x)) [
      | inl y ↦ rw (e, y) refl
      | inr n ↦ absurd (cc (rw (e, n, look_up_entry) at h))
    ]
  ]

  -- However the steps of earlier calls interleave from an empty cache, a call either asks the inner
  -- provider and goes on with its answer, or it is allowed from the cache, without asking and with
  -- the cache as it was. In the second case, among the earlier answers of the inner provider is an allowance for a
  -- request with the same contract, input, risk, approval mode and spend, which was stored less than
  -- `ttl` before. So the cache answers for no denial, and for no request that differs in one of these.
  pub cached_is_granted :
      (now : Readings) (request : ApprovalRequest) (s : S) (steps : List (Step S))
      (c : CachedApprovalProvider)
      → c.cache ≡ []
      → let c' = run_steps steps c in
        ((decide inner now request c' s ≡ (returned (allow cached_approval), c', s))
          × GrantedBy c.ttl now.at_look_up request steps)
        ⊎ (decide inner now request c' s
            ≡ after_inner inner now request
                (look_up now.at_look_up (key_of request) c').1
                (inner request s))
  unfolding decide
  cached_is_granted now request s steps c e =
      let c' = run_steps steps c in
      let key = key_of request in
      elim (Bool-cases (look_up now.at_look_up key c').0) [
        | inr n ↦ inr (rw n refl)
        | inl y ↦ inl (
          rw y (
              ap (λ d. (returned (allow cached_approval), d, s))
                (hit_keeps now.at_look_up key c' y)),
          Granted-GrantedBy c.ttl now.at_look_up request steps (
              hit_is_Granted now.at_look_up key (regions steps) c e
                (ap (λ d. (look_up now.at_look_up key d).0) (sym (run_steps-regions steps c)) ∙ y)),
        )
      ]
