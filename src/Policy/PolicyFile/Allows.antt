-- ===== src/Policy/PolicyFile/Allows.antt =====
-- What a file says when a policy that `load_policy_file` of src/tesera/policy.py read from it allows
-- a request.
use tesera.Common.{
  ℕ, zero, suc, Bool, true, false, Option, none, some, Bool-cases, inl, inr, ◌⊎◌, List, [], ◌∷◌,
  ◌++◌, String, any_of, all_of, length, str_eq, eq_iff, ◌≡◌, refl, ap, sym, ◌∙◌, subst, arith,
}
use tesera.Json.{Json, Items, Fields, nil, cons, arr, obj, str, find}
use tesera.Policy.{ApprovalRequest, is_allowed, verdict}
use tesera.Policy.Rules.{
  Rule, RuleProvider, RuleExplanation, is_decision, init, matches, explain, decide,
}
use tesera.Policy.Rules.First.{IsFirst, explain-IsFirst}
use tesera.Policy.PolicyFile.{PolicyText, document, loaded, load_policy_file}
use tesera.Policy.PolicyFile.Format.{
  is_rule, is_policy, TextOr, DescribesRule, DescribesRules, DescribesPolicy,
}
use tesera.Policy.PolicyFile.Sound.{load_policy_file-is_policy}
use tesera.Policy.PolicyFile.Described.{load_policy_file-described}
use tesera.Policy.PolicyFile.Complete.{init-made}

-- A text that is the verdict "allowed".
verdict-allowed : (s : String) → is_allowed (verdict s) ≡ true → s ≡ "allowed"
verdict-allowed s h = elim (Bool-cases (str_eq s "allowed")) [
  | inl y ↦ (eq_iff s "allowed").0 y
  | inr n ↦ elim (Bool-cases (str_eq s "denied")) [
    | inl y ↦ absurd (cc (rw (n, y) at h))
    | inr m ↦ absurd (cc (rw (n, m) at h))
  ]
]

apart_words : ◌≡◌ {A = String} "denied" "allowed" → ⊥
apart_words e = cc ((eq_iff "denied" "allowed").1 e)

-- A default that is taken for "allowed" stands in the file.
default_stands :
    (o : Option Json) (s : String) → TextOr "denied" o s → s ≡ "allowed" → o ≡ some (str "allowed")
default_stands o s (inl h) e = h ∙ ap (λ s. some (str s)) e
default_stands o s (inr h) e = absurd (apart_words (sym h.1 ∙ e))

-- The entry at a place of the list.
abbrev pub entry_at : ℕ → Items → Option Json
entry_at n nil = none
entry_at zero (cons v vs) = some v
entry_at (suc n) (cons v vs) = entry_at n vs

-- The entry of a rule that stands behind others.
rule_stands :
    (vs : Items) (before : List Rule) (rule : Rule) (rules : List Rule)
    → DescribesRules vs (before ++ rule ∷ rules)
    → (entry : Fields) × (entry_at (length before) vs ≡ some (obj entry)) × DescribesRule entry rule
rule_stands nil [] rule rules h = absurd h
rule_stands nil (_ ∷ _) rule rules h = absurd h
rule_stands (cons v vs) [] rule rules ((entry, e, d), h) = (entry, ap some e, d)
rule_stands (cons v vs) (_ ∷ before) rule rules (_, h) = rule_stands vs before rule rules h

decisions_are_words :
    (rules : List Rule)
    → all_of is_rule rules ≡ true
    → all_of (λ rule. is_decision rule.decision) rules ≡ true
decisions_are_words [] h = refl
decisions_are_words (rule ∷ rules) h =
    let rest : all_of is_rule rules ≡ true = ground (arith, h) in
    let ih = decisions_are_words rules rest in ground (arith, h, ih)

can_be_made : (p : RuleProvider) → is_policy p ≡ true → init p.rules p.default ≡ some p
can_be_made p h =
    let d : is_decision p.default ≡ true = ground (arith, h) in
    let rs : all_of is_rule p.rules ≡ true = ground (arith, h) in
    init-made p d (decisions_are_words p.rules rs)

module _ (fnmatchcase : String → String → Bool) (request : ApprovalRequest) where
  -- The entry of the file that gives the first rule that matches the request says "allowed".
  pub record AllowingEntry (file : PolicyText) (p : RuleProvider) : Type 0 where
    pub raw : Fields
    pub is_file : file ≡ document (obj raw)
    pub gives : DescribesPolicy raw p
    pub before : List Rule
    pub rule : Rule
    pub after : List Rule
    pub is_split : p.rules ≡ before ++ rule ∷ after
    pub none_before : any_of (matches fnmatchcase request) before ≡ false
    pub does_match : matches fnmatchcase request rule ≡ true
    pub entries : Items
    pub are_entries : find "rules" raw ≡ some (arr entries)
    pub entry : Fields
    pub stands : entry_at (length before) entries ≡ some (obj entry)
    pub gives_rule : DescribesRule entry rule
    pub says : find "decision" entry ≡ some (str "allowed")

  -- No rule matches, and the file says that the default is "allowed".
  pub record AllowingDefault (file : PolicyText) (p : RuleProvider) : Type 0 where
    pub raw : Fields
    pub is_file : file ≡ document (obj raw)
    pub gives : DescribesPolicy raw p
    pub none_match : any_of (matches fnmatchcase request) p.rules ≡ false
    pub says : find "default" raw ≡ some (str "allowed")

  -- The list of a file with a rule.
  entries_stand :
      (o : Option Json) (vs : Items) (n : ℕ) (v : Json)
      → (o ≡ some (arr vs)) ⊎ ((o ≡ none) × (vs ≡ nil))
      → entry_at n vs ≡ some v
      → o ≡ some (arr vs)
  entries_stand o vs n v (inl h) e = h
  entries_stand o vs n v (inr h) e = absurd (cc (rw h.1 at e))

  rule_allows :
      (file : PolicyText) (p : RuleProvider) (raw : Fields) (e : RuleExplanation)
      → file ≡ document (obj raw)
      → DescribesPolicy raw p
      → e.decision ≡ "allowed"
      → IsFirst fnmatchcase request p.rules 0 e
      → AllowingEntry file p
  rule_allows file p raw e is_file d a f =
      let (entry, stands, gives) =
        rule_stands d.entries f.before f.rule f.after
          (subst (DescribesRules d.entries) f.is_split d.gives_rules) in
      record {
        raw = raw;
        is_file = is_file;
        gives = d;
        before = f.before;
        rule = f.rule;
        after = f.after;
        is_split = f.is_split;
        none_before = f.none_before;
        does_match = f.does_match;
        entries = d.entries;
        are_entries = entries_stand (find "rules" raw) d.entries _ _ d.has_entries stands;
        entry = entry;
        stands = stands;
        gives_rule = gives;
        says = gives.has_decision ∙ ap (λ s. some (str s)) (sym f.decides ∙ a);
      }

  explained :
      (file : PolicyText) (p : RuleProvider)
      → load_policy_file file ≡ loaded p
      → (explain fnmatchcase p request).decision ≡ "allowed"
      → AllowingEntry file p ⊎ AllowingDefault file p
  explained file p h a =
      let (raw, is_file, d) = load_policy_file-described file p h in
      elim (explain-IsFirst fnmatchcase request p.rules p.default p
        (can_be_made p (load_policy_file-is_policy file p h))) [
          | inl f ↦ inl (rule_allows file p raw _ is_file d a f)
          | inr n ↦ inr (record {
            raw = raw;
            is_file = is_file;
            gives = d;
            none_match = n.none_match;
            says = default_stands (find "default" raw) p.default d.has_default (sym n.decides ∙ a);
          })
        ]

  -- Nothing is allowed unless the file says so. If a policy that was loaded from a file allows a
  -- request, then the file is an object that gives the policy, entry by entry, and either the first
  -- rule that matches the request is given by the entry at its place in the list of the file, and
  -- that entry holds the text "allowed" under "decision", or no rule matches and the object holds
  -- that text under "default".
  pub allowed_by_file :
      (file : PolicyText) (p : RuleProvider)
      → load_policy_file file ≡ loaded p
      → is_allowed (decide fnmatchcase p request).decision ≡ true
      → AllowingEntry file p ⊎ AllowingDefault file p
  unfolding decide
  allowed_by_file file p h a = explained file p h (verdict-allowed _ a)
