-- ===== src/Policy/Combined/Sound.antt =====
-- What a combined decision says of the providers behind it.
use tesera.Common.{
  ◌≡◌, refl, Bool, true, false, List, [], ◌∷◌, ◌↔◌, subst, inl, inr, if◌then◌else◌, Bool-cases,
}
use tesera.Policy.{
  ApprovalRequest, Reasons, nil, append_reason, is_allowed, Outcome, returned, raised, Provider,
}
use tesera.Policy.Combined.{Mode, decide, all_step, any_step, decide_all_mode, decide_any_mode}

abbrev pub grants : Outcome → Bool
grants (returned d) = is_allowed d.decision
grants (raised _) = false

abbrev pub refuses : Outcome → Bool
refuses (returned d) = if is_allowed d.decision then false else true
refuses (raised _) = false

module _ {ℓ} {S : Type ℓ} where
  -- Every provider, asked in turn from `s`, allows, and the last leaves the state `s'`.
  abbrev pub AllGrant : List (Provider S) → ApprovalRequest → S → S → Type ℓ
  AllGrant [] request s s' = s ≡ s'
  AllGrant (p ∷ ps) request s s' =
      (grants (p request s).0 ≡ true) × AllGrant ps request (p request s).1 s'

  -- Every provider, asked in turn from `s`, denies, and the last leaves the state `s'`.
  abbrev pub AllRefuse : List (Provider S) → ApprovalRequest → S → S → Type ℓ
  AllRefuse [] request s s' = s ≡ s'
  AllRefuse (p ∷ ps) request s s' =
      (refuses (p request s).0 ≡ true) × AllRefuse ps request (p request s).1 s'

  all_step_sound :
      (rs : Reasons) (rest : Reasons → S → Outcome × S) (x : Outcome × S)
      → grants (all_step rs rest x).0 ≡ true
      → (grants x.0 ≡ true) × (rs' : Reasons) × (all_step rs rest x ≡ rest rs' x.1)
  unfolding all_step
  all_step_sound rs rest (raised e, s) h = cc
  all_step_sound rs rest (returned d, s) h = elim (Bool-cases (is_allowed d.decision)) [
    | inl a ↦ (a, append_reason rs d.reason, rw a)
    | inr n ↦ cc (rw n at h)
  ]

  all_mode_sound :
      (ps : List (Provider S)) (rs : Reasons) (r : ApprovalRequest) (s : S)
      → grants (decide_all_mode ps rs r s).0 ≡ true
      → AllGrant ps r s (decide_all_mode ps rs r s).1
  unfolding decide_all_mode
  all_mode_sound [] rs r s h = refl
  all_mode_sound (p ∷ ps) rs r s h =
      let (a, rs', e) = all_step_sound rs (λ q t. decide_all_mode ps q r t) (p r s) h in
      (a, rw e (all_mode_sound ps rs' r (p r s).1 (rw e at h)))

  all_step_complete :
      (rs : Reasons) (rest : Reasons → S → Outcome × S) (x : Outcome × S)
      → grants x.0 ≡ true
      → (rs' : Reasons) × (all_step rs rest x ≡ rest rs' x.1)
  unfolding all_step
  all_step_complete rs rest (raised e, s) h = cc
  all_step_complete rs rest (returned d, s) h = (append_reason rs d.reason, rw h)

  all_mode_complete :
      (ps : List (Provider S)) (rs : Reasons) (r : ApprovalRequest) (s s' : S)
      → AllGrant ps r s s'
      → (grants (decide_all_mode ps rs r s).0 ≡ true) × ((decide_all_mode ps rs r s).1 ≡ s')
  unfolding decide_all_mode
  all_mode_complete [] rs r s s' h = (refl, h)
  all_mode_complete (p ∷ ps) rs r s s' h =
      let (rs', e) = all_step_complete rs (λ q t. decide_all_mode ps q r t) (p r s) h.0 in
      rw e (all_mode_complete ps rs' r (p r s).1 s' h.1)

  -- In the mode "all" a request is allowed exactly if every provider, asked in turn, allows it;
  -- then the state is that which the last provider leaves.
  pub decide-all_iff :
      (ps : List (Provider S)) (r : ApprovalRequest) (s s' : S)
      → ((grants (decide Mode.all ps r s).0 ≡ true) × ((decide Mode.all ps r s).1 ≡ s'))
        ↔ AllGrant ps r s s'
  unfolding decide
  decide-all_iff ps r s s' = (
    λ h. subst (λ t. AllGrant ps r s t) h.1 (all_mode_sound ps nil r s h.0),
    all_mode_complete ps nil r s s',
  )

  any_step_denies :
      (rs : Reasons) (rest : Reasons → S → Outcome × S) (x : Outcome × S)
      → refuses (any_step rs rest x).0 ≡ true
      → (refuses x.0 ≡ true) × (rs' : Reasons) × (any_step rs rest x ≡ rest rs' x.1)
  unfolding any_step
  any_step_denies rs rest (raised e, s) h = cc
  any_step_denies rs rest (returned d, s) h = elim (Bool-cases (is_allowed d.decision)) [
    | inl a ↦ cc (rw a at h)
    | inr n ↦ (rw n, append_reason rs d.reason, rw n)
  ]

  any_mode_denies :
      (ps : List (Provider S)) (rs : Reasons) (r : ApprovalRequest) (s : S)
      → refuses (decide_any_mode ps rs r s).0 ≡ true
      → AllRefuse ps r s (decide_any_mode ps rs r s).1
  unfolding decide_any_mode
  any_mode_denies [] rs r s h = refl
  any_mode_denies (p ∷ ps) rs r s h =
      let (a, rs', e) = any_step_denies rs (λ q t. decide_any_mode ps q r t) (p r s) h in
      (a, rw e (any_mode_denies ps rs' r (p r s).1 (rw e at h)))

  any_step_passes :
      (rs : Reasons) (rest : Reasons → S → Outcome × S) (x : Outcome × S)
      → refuses x.0 ≡ true
      → (rs' : Reasons) × (any_step rs rest x ≡ rest rs' x.1)
  unfolding any_step
  any_step_passes rs rest (raised e, s) h = cc
  any_step_passes rs rest (returned d, s) h = elim (Bool-cases (is_allowed d.decision)) [
    | inl a ↦ absurd (cc (rw a at h))
    | inr n ↦ (append_reason rs d.reason, rw n)
  ]

  any_mode_refuses :
      (ps : List (Provider S)) (rs : Reasons) (r : ApprovalRequest) (s s' : S)
      → AllRefuse ps r s s'
      → (refuses (decide_any_mode ps rs r s).0 ≡ true) × ((decide_any_mode ps rs r s).1 ≡ s')
  unfolding decide_any_mode
  any_mode_refuses [] rs r s s' h = (refl, h)
  any_mode_refuses (p ∷ ps) rs r s s' h =
      let (rs', e) = any_step_passes rs (λ q t. decide_any_mode ps q r t) (p r s) h.0 in
      rw e (any_mode_refuses ps rs' r (p r s).1 s' h.1)

  -- In the mode "any" a request is denied exactly if every provider, asked in turn, denies it
  -- and none raises; then the state is that which the last provider leaves.
  pub decide-any_iff :
      (ps : List (Provider S)) (r : ApprovalRequest) (s s' : S)
      → ((refuses (decide Mode.any ps r s).0 ≡ true) × ((decide Mode.any ps r s).1 ≡ s'))
        ↔ AllRefuse ps r s s'
  unfolding decide
  decide-any_iff ps r s s' = (
    λ h. subst (λ t. AllRefuse ps r s t) h.1 (any_mode_denies ps nil r s h.0),
    any_mode_refuses ps nil r s s',
  )
