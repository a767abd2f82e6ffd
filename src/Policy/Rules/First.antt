-- ===== src/Policy/Rules/First.antt =====
-- The first matching rule of a `RuleProvider` of src/tesera/policy.py decides.
use tesera.Common.{
  ℕ, suc, ◌+◌, ◌≡◌, refl, ap, sym, subst, ◌∙◌, Bool, true, false, none, some, List, [], ◌∷◌, ◌++◌,
  String, ◌&&◌, any_of, all_of, length, str_eq, eq_iff, Bool-cases, ◌⊎◌, inl, inr, arith,
}
use tesera.Policy.{ApprovalRequest}
use tesera.Policy.Rules.{
  Rule, RuleExplanation, RuleProvider, is_decision, init, matches, explain_from, explain,
}

module _ (fnmatchcase : String → String → Bool) (request : ApprovalRequest) where
  -- The first rule that matches stands after rules that do not.
  pub record IsFirst (rules : List Rule) (index : ℕ) (e : RuleExplanation) : Type 0 where
    pub before : List Rule
    pub rule : Rule
    pub after : List Rule
    pub is_split : rules ≡ before ++ rule ∷ after
    pub none_before : any_of (matches fnmatchcase request) before ≡ false
    pub does_match : matches fnmatchcase request rule ≡ true
    pub decides : e.decision ≡ rule.decision
    pub is_index : e.matched_index ≡ some (index + length before)
    pub is_action : e.matched_action ≡ some rule.action

  -- No rule matches.
  pub record IsDefault (default : String) (rules : List Rule) (e : RuleExplanation) : Type 0 where
    pub none_match : any_of (matches fnmatchcase request) rules ≡ false
    pub decides : e.decision ≡ default
    pub no_index : e.matched_index ≡ none

  explain_from-IsFirst :
      (default : String) (total index : ℕ) (rules : List Rule)
      → is_decision default ≡ true
      → IsFirst rules index (explain_from fnmatchcase request default total index rules)
        ⊎ IsDefault default rules (explain_from fnmatchcase request default total index rules)
  unfolding explain_from
  explain_from-IsFirst default total index [] h = inr (record {
    none_match = refl;
    decides = elim (Bool-cases (str_eq default "allowed")) [
      | inl y ↦ rw y (sym ((eq_iff default "allowed").0 y))
      | inr n ↦ rw n (sym ((eq_iff default "denied").0 (ground arith)))
    ];
    no_index = ground arith;
  })
  explain_from-IsFirst default total index (rule ∷ rules) h =
      elim (Bool-cases (matches fnmatchcase request rule)) [
        | inl y ↦ rw y (
            inl (record {
              before = [];
              rule = rule;
              after = rules;
              is_split = refl;
              none_before = refl;
              does_match = y;
              decides = refl;
              is_index = ap some (omega arith);
              is_action = refl;
            }))
        | inr n ↦ rw n (elim (explain_from-IsFirst default total (suc index) rules h) [
          | inl f ↦ inl (record {
            before = rule ∷ f.before;
            rule = f.rule;
            after = f.after;
            is_split = ap (λ l. rule ∷ l) f.is_split;
            none_before = rw n f.none_before;
            does_match = f.does_match;
            decides = f.decides;
            is_index = f.is_index ∙ ap some (omega arith);
            is_action = f.is_action;
          })
          | inr d ↦ inr (record {
            none_match = rw n d.none_match;
            decides = d.decides;
            no_index = d.no_index;
          })
        ])
      ]

  -- A provider that could be made from its rules explains a request by the first rule that matches:
  -- its decision, its index among the rules and its glob, with no matching rule before it. If no
  -- rule matches, the decision is the default, with no index.
  pub explain-IsFirst :
      (rules : List Rule) (default : String) (p : RuleProvider)
      → init rules default ≡ some p
      → IsFirst rules 0 (explain fnmatchcase p request)
        ⊎ IsDefault default rules (explain fnmatchcase p request)
  unfolding explain init
  explain-IsFirst rules default p h =
      elim (Bool-cases (is_decision default && all_of (λ rule. is_decision rule.decision) rules)) [
        | inr n ↦ absurd (cc (rw n at h))
        | inl y ↦
            let made : RuleProvider = record { rules = rules; default = default } in
            let same : made ≡ p = cc (rw y at h) in
            subst
              (λ p.
                IsFirst rules 0 (explain fnmatchcase p request)
                ⊎ IsDefault default rules (explain fnmatchcase p request))
              same (explain_from-IsFirst default (length rules) 0 rules (ground arith))
      ]
