-- ===== src/Policy/Combined/Tests.antt =====
-- Runs of combined providers that count their calls in a shared number, and the theorems at them.
use tesera.Common.{ℕ, ◌+◌, ◌≡◌, refl, true, none, [], ◌∷◌, ◌↔◌}
use tesera.Policy.{ApprovalRequest, allow, deny, text, returned, Provider}
use tesera.Policy.Combined.{Mode, decide}
use tesera.Policy.Combined.Sound.{
  grants, refuses, AllGrant, AllRefuse, decide-all_iff, decide-any_iff,
}

abbrev request : ApprovalRequest
request = record {
  action_name = "refund";
  risk = "high";
  approval_mode = "required";
  redacted_input_summary = "";
  input_hash = "";
  contract_hash = "";
  spend_cents = none;
}

abbrev yea : Provider ℕ
yea r n = (returned (allow (text "yes")), n + 1)

abbrev nay : Provider ℕ
nay r n = (returned (deny (text "no")), n + 10)

-- The second denial is not asked for.
short_circuit : (decide Mode.all (yea ∷ nay ∷ nay ∷ []) request 0).1 ≡ 11
unfolding decide
short_circuit = refl

decide-all_iff_example :
    ((grants (decide Mode.all (yea ∷ yea ∷ []) request 0).0 ≡ true)
      × ((decide Mode.all (yea ∷ yea ∷ []) request 0).1 ≡ 2))
    ↔ AllGrant (yea ∷ yea ∷ []) request 0 2
decide-all_iff_example = decide-all_iff (yea ∷ yea ∷ []) request 0 2

decide-any_iff_example :
    ((refuses (decide Mode.any (nay ∷ nay ∷ []) request 0).0 ≡ true)
      × ((decide Mode.any (nay ∷ nay ∷ []) request 0).1 ≡ 20))
    ↔ AllRefuse (nay ∷ nay ∷ []) request 0 20
decide-any_iff_example = decide-any_iff (nay ∷ nay ∷ []) request 0 20
