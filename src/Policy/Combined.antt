-- ===== src/Policy/Combined.antt =====
-- `CombinedProvider` of src/tesera/policy.py (`AllOf`, `AnyOf`) over providers that share a state.
pub mod Sound
mod Tests
use tesera.Common.{String, List, [], ◌∷◌, Bool, true, false, if◌then◌else◌}
use tesera.Policy.{
  ApprovalRequest, ApprovalDecision, Reason, Reasons, nil, append_reason, allow, deny, is_allowed,
  denied_by_policy, allowed_by_all, allowed_by_policy, denied_by_all, Outcome, returned, raised,
  Provider,
}

-- `mode`, which `__post_init__` holds to the two words.
pub data Mode : Type 0 where
  all any : Mode

module _ {ℓ} {S : Type ℓ} where
  -- The body of the loop of the mode "all" on one answer: what a provider raises ends the loop,
  -- and so does a denial.
  unfoldable pub all_step : Reasons → (Reasons → S → Outcome × S) → Outcome × S → Outcome × S
  unfolding append_reason
  all_step reasons rest (raised e, s) = (raised e, s)
  all_step reasons rest (returned d, s) =
      let reasons' = append_reason reasons d.reason in
      if is_allowed d.decision
      then rest reasons' s
      else (returned (deny (denied_by_policy reasons')), s)

  unfoldable pub decide_all_mode : List (Provider S) → Reasons → Provider S
  unfolding all_step
  decide_all_mode [] reasons request s = (returned (allow (allowed_by_all reasons)), s)
  decide_all_mode (provider ∷ providers) reasons request s =
      all_step reasons (λ rs t. decide_all_mode providers rs request t) (provider request s)

  -- The body of the loop of the mode "any" on one answer: an allowance ends the loop.
  unfoldable pub any_step : Reasons → (Reasons → S → Outcome × S) → Outcome × S → Outcome × S
  unfolding append_reason
  any_step reasons rest (raised e, s) = (raised e, s)
  any_step reasons rest (returned d, s) =
      let reasons' = append_reason reasons d.reason in
      if is_allowed d.decision
      then (returned (allow (allowed_by_policy reasons')), s)
      else rest reasons' s

  unfoldable pub decide_any_mode : List (Provider S) → Reasons → Provider S
  unfolding any_step
  decide_any_mode [] reasons request s = (returned (deny (denied_by_all reasons)), s)
  decide_any_mode (provider ∷ providers) reasons request s =
      any_step reasons (λ rs t. decide_any_mode providers rs request t) (provider request s)

  unfoldable pub decide : Mode → List (Provider S) → Provider S
  unfolding decide_all_mode decide_any_mode
  decide all providers = decide_all_mode providers nil
  decide any providers = decide_any_mode providers nil
