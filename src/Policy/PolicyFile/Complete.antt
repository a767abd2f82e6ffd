-- ===== src/Policy/PolicyFile/Complete.antt =====
-- `load_policy_file` of src/tesera/policy.py reads exactly the documents of its format.
use tesera.Common.{
  ℕ, suc, Bool, true, false, not, Option, none, some, Bool-cases, inl, inr, ◌⊎◌, ◌↔◌, List, [], ◌∷◌,
  String, all_of, str_eq, ◌≡◌, refl, ap, sym, ◌∙◌, if◌then◌else◌,
}
use tesera.Json.{Json, Items, Fields, null, str, arr, obj, nil, cons, find, get, as_str, as_obj}
use tesera.Policy.Rules.{Rule, RuleProvider, is_decision, init}
use tesera.Policy.PolicyFile.{
  Load, loaded, and_then, document, all_keys, is_policy_key, is_rule_key, texts, read_action,
  read_decision, read_risks, read_reason, read_fields, read_rule, read_entry, read_rules,
  read_entries, read_default, made, load_known, load_object, load_policy_file,
}
use tesera.Policy.PolicyFile.Format.{
  print_texts, DescribesRisks, TextOr, DescribesRule, DescribesRules, DescribesPolicy, Describes,
}
use tesera.Policy.PolicyFile.Described.{load_policy_file-described}

if_true {ℓ} : {A : Type ℓ} (t : Bool) (x y : A) → t ≡ true → (if t then x else y) ≡ x
if_true true x y h = refl
if_true false x y h = absurd (cc h)

texts-print_texts : (rs : List String) → texts (print_texts rs) ≡ some rs
unfolding texts as_str
texts-print_texts [] = refl
texts-print_texts (s ∷ rs) = rw (texts-print_texts rs) refl

-- What a text under a key is read as.
find-text : (k s : String) (fs : Fields) → find k fs ≡ some (str s) → as_str (get k fs) ≡ some s
unfolding get as_str
find-text k s fs h = ap (λ o. as_str (elim o [ none ↦ null | some v ↦ v ])) h

read_action-described :
    (index : ℕ) (o : Option String) (s : String)
    → o ≡ some s
    → not (str_eq s "") ≡ true
    → read_action index o ≡ loaded s
read_action-described index o s e h = elim (Bool-cases (str_eq s "")) [
  | inl y ↦ absurd (cc (rw y at h))
  | inr n ↦ rw e (rw n refl)
]

read_decision-described :
    (index : ℕ) (o : Option String) (s : String)
    → o ≡ some s
    → is_decision s ≡ true
    → read_decision index o ≡ loaded s
read_decision-described index o s e h = rw e (rw h refl)

read_risks-described :
    (index : ℕ) (v : Json) (risks : Option (List String))
    → DescribesRisks v risks
    → read_risks index v ≡ loaded risks
unfolding read_risks
read_risks-described index v none h = rw h refl
read_risks-described index v (some rs) h = rw h.0 (rw (texts-print_texts rs) (rw h.1 refl))

read_reason-described :
    (index : ℕ) (o : Option Json) (s : String) → TextOr "" o s → read_reason index o ≡ loaded s
unfolding as_str
read_reason-described index o s (inl h) = rw h refl
read_reason-described index o s (inr h) = rw h.0 (ap loaded (sym h.1))

-- The steps of an entry, if each of them returns.
all_return :
    {A B C D : Type 0} (m : Load A) (n : Load B) (o : Load C) (q : Load D)
    (f : A → B → C → D → Rule) (a : A) (b : B) (c : C) (d : D)
    → m ≡ loaded a
    → n ≡ loaded b
    → o ≡ loaded c
    → q ≡ loaded d
    → and_then m (λ a. and_then n (λ b. and_then o (λ c. and_then q (λ d. loaded (f a b c d)))))
      ≡ loaded (f a b c d)
all_return m n o q f a b c d h i j k = rw (h, i, j, k) refl

read_rule-described :
    (index : ℕ) (entry : Fields) (rule : Rule)
    → DescribesRule entry rule
    → read_rule index entry ≡ loaded rule
unfolding read_rule read_fields
read_rule-described index entry rule h =
    if_true (all_keys is_rule_key entry) (read_fields index entry) _ h.only_keys
    ∙ all_return (read_action index (as_str (get "action" entry)))
        (read_decision index (as_str (get "decision" entry))) (read_risks index (get "risks" entry))
        (read_reason index (find "reason" entry))
        (λ a d r t. record { action = a; decision = d; risks = r; reason = t }) rule.action
        rule.decision rule.risks rule.reason
        (read_action-described index _ rule.action
          (find-text "action" rule.action entry h.has_action) h.is_named)
        (read_decision-described index _ rule.decision
          (find-text "decision" rule.decision entry h.has_decision) h.decides)
        (read_risks-described index (get "risks" entry) rule.risks h.has_risks)
        (read_reason-described index (find "reason" entry) rule.reason h.has_reason)

read_entry-described :
    (index : ℕ) (v : Json) (entry : Fields) (rule : Rule)
    → v ≡ obj entry
    → DescribesRule entry rule
    → read_entry index (as_obj v) ≡ loaded rule
unfolding as_obj
read_entry-described index v entry rule e h = rw e (read_rule-described index entry rule h)

read_rules-described :
    (index : ℕ) (vs : Items) (rules : List Rule)
    → DescribesRules vs rules
    → read_rules index vs ≡ loaded rules
unfolding read_rules
read_rules-described index nil [] h = refl
read_rules-described index nil (_ ∷ _) h = absurd h
read_rules-described index (cons v vs) [] h = absurd h
read_rules-described index (cons v vs) (rule ∷ rules) ((entry, e, d), h) =
    rw (read_entry-described index v entry rule e d, read_rules-described (suc index) vs rules h)
      refl

-- The rules that are described decide with one of the two words.
decisions_of :
    (vs : Items) (rules : List Rule)
    → DescribesRules vs rules
    → all_of (λ rule. is_decision rule.decision) rules ≡ true
decisions_of nil [] h = refl
decisions_of nil (_ ∷ _) h = absurd h
decisions_of (cons v vs) [] h = absurd h
decisions_of (cons v vs) (rule ∷ rules) ((entry, e, d), h) =
    rw (d.decides, decisions_of vs rules h) refl

read_entries-described :
    (o : Option Json) (vs : Items)
    → (o ≡ some (arr vs)) ⊎ ((o ≡ none) × (vs ≡ nil))
    → read_entries o ≡ loaded vs
unfolding read_entries
read_entries-described o vs (inl h) = rw h refl
read_entries-described o vs (inr h) = rw h.0 (ap loaded (sym h.1))

read_default-described :
    (o : Option Json) (s : String)
    → TextOr "denied" o s
    → is_decision s ≡ true
    → read_default o ≡ loaded s
unfolding as_str
read_default-described o s (inl h) d = rw h (rw d refl)
read_default-described o s (inr h) d = rw h.0 (ap loaded (sym h.1))

-- A policy whose words are right can be made from its rules and its default.
pub init-made :
    (p : RuleProvider)
    → is_decision p.default ≡ true
    → all_of (λ rule. is_decision rule.decision) p.rules ≡ true
    → init p.rules p.default ≡ some p
unfolding init
init-made p d rs = rw (d, rs) refl

-- The last steps of a file, if each of them returns.
all_made :
    (l : Load Items) (n : Load String) (vs : Items) (p : RuleProvider)
    → l ≡ loaded vs
    → read_rules 0 vs ≡ loaded p.rules
    → n ≡ loaded p.default
    → made (init p.rules p.default) ≡ loaded p
    → and_then l (λ entries.
      and_then (read_rules 0 entries) (λ rules. and_then n (λ default. made (init rules default))))
      ≡ loaded p
all_made l n vs p a b c d = rw a (rw b (rw c d))

load_object-described :
    (raw : Fields) (p : RuleProvider) → DescribesPolicy raw p → load_object raw ≡ loaded p
unfolding load_object load_known
load_object-described raw p h =
    if_true (all_keys is_policy_key raw) (load_known raw) _ h.only_keys
    ∙ all_made (read_entries (find "rules" raw)) (read_default (find "default" raw)) h.entries p
        (read_entries-described (find "rules" raw) h.entries h.has_entries)
        (read_rules-described 0 h.entries p.rules h.gives_rules)
        (read_default-described (find "default" raw) p.default h.has_default h.is_word)
        (ap made (init-made p h.is_word (decisions_of h.entries p.rules h.gives_rules)))

load_document-described :
    (v : Json) (p : RuleProvider) → Describes v p → load_policy_file (document v) ≡ loaded p
unfolding load_policy_file as_obj
load_document-described v p (raw, e, h) = rw e (load_object-described raw p h)

described_document :
    (v : Json) (p : RuleProvider)
    → (raw : Fields) × (document v ≡ document (obj raw)) × DescribesPolicy raw p
    → Describes v p
described_document v p (raw, e, h) = (raw, cc e, h)

-- `load_policy_file` reads exactly its format: it returns a policy from a document if, and only if,
-- the document gives that policy. So no document of the format is refused, whatever the order of its
-- keys, and with `default`, `rules`, `risks` and `reason` left out or not; none is read as another
-- policy; and every other document is refused.
pub load_policy_file-Describes :
    (v : Json) (p : RuleProvider) → (load_policy_file (document v) ≡ loaded p) ↔ Describes v p
load_policy_file-Describes v p = (
  λ h. described_document v p (load_policy_file-described (document v) p h),
  λ h. load_document-described v p h,
)
