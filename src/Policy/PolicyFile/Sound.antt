-- ===== src/Policy/PolicyFile/Sound.antt =====
-- What `load_policy_file` of src/tesera/policy.py returns is a well-formed policy.
use tesera.Common.{
  ℕ, suc, Bool, true, false, not, Option, none, some, Bool-cases, inl, inr, List, [], ◌∷◌, String,
  ◌&&◌, all_of, str_eq, ◌≡◌, refl, ap, sym, ◌∙◌, subst, arith, if◌then◌else◌,
}
use tesera.Json.{
  Json, Items, Fields, null, bool, int, float, nan, infinity, str, arr, obj, nil, cons, find, get,
  as_str, as_obj,
}
use tesera.Policy.Rules.{Rule, RuleProvider, is_decision, init}
use tesera.Policy.PolicyFile.{
  Load, refused, loaded, and_then, PolicyError, PolicyText, unreadable, garbled, document, all_keys,
  is_policy_key, is_rule_key, is_risk_level, texts, read_action, read_decision, read_levels,
  read_risks, read_reason, read_fields, read_rule, read_entry, read_rules, read_entries, read_word,
  read_default, made, load_known, load_object, load_policy_file, unknown_keys, unknown_top_level,
  bad_decision, unknown_risks, bad_default,
}
use tesera.Policy.PolicyFile.Format.{are_levels, is_rule, is_policy}

pub loaded_inj {ℓ} : {A : Type ℓ} (a b : A) → loaded a ≡ loaded b → a ≡ b
loaded_inj a b e = cc e

-- A step that returned went on from a value.
pub and_then-loaded {ℓ κ} :
    {A : Type ℓ} {B : Type κ} (m : Load A) (f : A → Load B) (b : B)
    → and_then m f ≡ loaded b
    → (a : A) × (m ≡ loaded a) × (f a ≡ loaded b)
and_then-loaded (refused e) f b h = absurd (cc h)
and_then-loaded (loaded a) f b h = (a, refl, h)

-- A value that a test let through passes it.
pub kept-passes {ℓ} :
    {A : Type ℓ} (t : Bool) (e : PolicyError) (m : Load A) (b : A)
    → (if t then m else refused e) ≡ loaded b
    → (t ≡ true) × (m ≡ loaded b)
kept-passes true e m b h = (refl, h)
kept-passes false e m b h = absurd (cc h)

pub read_action-kept :
    (index : ℕ) (o : Option String) (s : String)
    → read_action index o ≡ loaded s
    → not (str_eq s "") ≡ true
read_action-kept index none s h = absurd (cc h)
read_action-kept index (some t) s h = elim (Bool-cases (str_eq t "")) [
  | inl y ↦ absurd (cc (rw y at h))
  | inr n ↦ subst (λ s. not (str_eq s "") ≡ true) (loaded_inj t s (rw n at h)) (rw n refl)
]

pub read_decision-kept :
    (index : ℕ) (o : Option String) (s : String)
    → read_decision index o ≡ loaded s
    → is_decision s ≡ true
read_decision-kept index none s h = absurd (cc h)
read_decision-kept index (some t) s h =
    let (y, e) = kept-passes (is_decision t) (bad_decision index) (loaded t) s h in
    subst (λ s. is_decision s ≡ true) (loaded_inj t s e) y

pub read_levels-kept :
    (index : ℕ) (o : Option (List String)) (risks : Option (List String))
    → read_levels index o ≡ loaded risks
    → are_levels risks ≡ true
read_levels-kept index none risks h = absurd (cc h)
read_levels-kept index (some rs) risks h =
    let (y, e) =
      kept-passes (all_of is_risk_level rs) (unknown_risks index) (loaded (some rs)) risks h in
    subst (λ r. are_levels r ≡ true) (loaded_inj (some rs) risks e) y

read_risks-kept :
    (index : ℕ) (v : Json) (risks : Option (List String))
    → read_risks index v ≡ loaded risks
    → are_levels risks ≡ true
unfolding read_risks
read_risks-kept index null risks h = subst (λ r. are_levels r ≡ true) (loaded_inj none risks h) refl
read_risks-kept index (arr vs) risks h = read_levels-kept index (texts vs) risks h
read_risks-kept index (bool b) risks h = absurd (cc h)
read_risks-kept index (int n) risks h = absurd (cc h)
read_risks-kept index (float n d) risks h = absurd (cc h)
read_risks-kept index nan risks h = absurd (cc h)
read_risks-kept index (infinity b) risks h = absurd (cc h)
read_risks-kept index (str s) risks h = absurd (cc h)
read_risks-kept index (obj fs) risks h = absurd (cc h)

both : (a b c : Bool) → a ≡ true → b ≡ true → c ≡ true → (a && (b && c)) ≡ true
both a b c p q r = ground (arith, p, q, r)

-- The four tests that an entry passed.
pub record IsReadRule (index : ℕ) (entry : Fields) (rule : Rule) : Type 0 where
  pub is_action : read_action index (as_str (get "action" entry)) ≡ loaded rule.action
  pub is_decided : read_decision index (as_str (get "decision" entry)) ≡ loaded rule.decision
  pub are_risks : read_risks index (get "risks" entry) ≡ loaded rule.risks
  pub is_reason : read_reason index (find "reason" entry) ≡ loaded rule.reason

read_fields-IsReadRule :
    (index : ℕ) (entry : Fields) (rule : Rule)
    → read_fields index entry ≡ loaded rule
    → IsReadRule index entry rule
unfolding read_fields
read_fields-IsReadRule index entry rule h =
    let (action, ha, h1) = and_then-loaded _ _ rule h in
    let (decision, hd, h2) = and_then-loaded _ _ rule h1 in
    let (risks, hr, h3) = and_then-loaded _ _ rule h2 in
    let (reason, ht, h4) =
      and_then-loaded (read_reason index (find "reason" entry))
        (λ reason.
          loaded (record { action = action; decision = decision; risks = risks; reason = reason }))
        rule h3 in
    subst (IsReadRule index entry) (loaded_inj _ rule h4)
      (record { is_action = ha; is_decided = hd; are_risks = hr; is_reason = ht })

-- An entry that was read is an object with the keys of a rule, and passed the tests.
pub read_entry-IsReadRule :
    (index : ℕ) (o : Option Fields) (rule : Rule)
    → read_entry index o ≡ loaded rule
    → (entry : Fields) × (o ≡ some entry)
      × (all_keys is_rule_key entry ≡ true)
      × IsReadRule index entry rule
unfolding all_keys read_rule
read_entry-IsReadRule index none rule h = absurd (cc h)
read_entry-IsReadRule index (some entry) rule h =
    let (y, k) =
      kept-passes (all_keys is_rule_key entry) (unknown_keys index) (read_fields index entry) rule
        h in
    (entry, refl, y, read_fields-IsReadRule index entry rule k)

read_entry-kept :
    (index : ℕ) (o : Option Fields) (rule : Rule)
    → read_entry index o ≡ loaded rule
    → is_rule rule ≡ true
read_entry-kept index o rule h =
    let (entry, _, _, r) = read_entry-IsReadRule index o rule h in
    both (not (str_eq rule.action "")) (is_decision rule.decision) (are_levels rule.risks)
      (read_action-kept index (as_str (get "action" entry)) rule.action r.is_action)
      (read_decision-kept index (as_str (get "decision" entry)) rule.decision r.is_decided)
      (read_risks-kept index (get "risks" entry) rule.risks r.are_risks)

pub read_rules-kept :
    (index : ℕ) (vs : Items) (rules : List Rule)
    → read_rules index vs ≡ loaded rules
    → all_of is_rule rules ≡ true
unfolding read_rules
read_rules-kept index nil rules h =
    subst (λ rs. all_of is_rule rs ≡ true) (loaded_inj [] rules h) refl
read_rules-kept index (cons v vs) rules h =
    let (rule, e, h1) = and_then-loaded (read_entry index (as_obj v)) _ rules h in
    let (rest, t, h2) = and_then-loaded (read_rules (suc index) vs) _ rules h1 in
    subst (λ rs. all_of is_rule rs ≡ true) (loaded_inj (rule ∷ rest) rules h2)
      (ground
        (arith, read_entry-kept index (as_obj v) rule e, read_rules-kept (suc index) vs rest t))

pub read_word-kept :
    (o : Option String) (s : String) → read_word o ≡ loaded s → is_decision s ≡ true
read_word-kept none s h = absurd (cc h)
read_word-kept (some t) s h =
    let (y, e) = kept-passes (is_decision t) bad_default (loaded t) s h in
    subst (λ s. is_decision s ≡ true) (loaded_inj t s e) y

pub read_default-kept :
    (o : Option Json) (s : String) → read_default o ≡ loaded s → is_decision s ≡ true
read_default-kept none s h = subst (λ s. is_decision s ≡ true) (loaded_inj "denied" s h) refl
read_default-kept (some v) s h = read_word-kept (as_str v) s h

-- A provider that was made holds what it was made of.
pub made-init :
    (rules : List Rule) (default : String) (p : RuleProvider)
    → made (init rules default) ≡ loaded p
    → p ≡ record { rules = rules; default = default }
unfolding init
made-init rules default p h =
    elim (Bool-cases (is_decision default && all_of (λ rule. is_decision rule.decision) rules)) [
      | inl y ↦ sym (loaded_inj _ p (rw (y, init) at h))
      | inr n ↦ absurd (cc (rw (n, init) at h))
    ]

-- What was read on the way to a policy.
pub record IsRead (raw : Fields) (p : RuleProvider) : Type 0 where
  pub entries : Items
  pub only_keys : all_keys is_policy_key raw ≡ true
  pub are_entries : read_entries (find "rules" raw) ≡ loaded entries
  pub are_rules : read_rules 0 entries ≡ loaded p.rules
  pub is_default : read_default (find "default" raw) ≡ loaded p.default

pub load_object-IsRead :
    (raw : Fields) (p : RuleProvider) → load_object raw ≡ loaded p → IsRead raw p
unfolding load_known all_keys load_object
load_object-IsRead raw p h =
    let (y, k) = kept-passes (all_keys is_policy_key raw) unknown_top_level (load_known raw) p h in
    let (entries, he, h1) = and_then-loaded _ _ p k in
    let (rules, hr, h2) = and_then-loaded _ _ p h1 in
    let (default, hd, h3) = and_then-loaded _ _ p h2 in
    let same = made-init rules default p h3 in
    record {
      entries = entries;
      only_keys = y;
      are_entries = he;
      are_rules = hr ∙ ap (λ p. loaded p.rules) (sym same);
      is_default = hd ∙ ap (λ p. loaded p.default) (sym same);
    }

-- The object of a file that was loaded.
pub load_policy_file-IsRead :
    (file : PolicyText) (p : RuleProvider)
    → load_policy_file file ≡ loaded p
    → (raw : Fields) × (file ≡ document (obj raw)) × IsRead raw p
unfolding load_policy_file as_obj
load_policy_file-IsRead unreadable p h = absurd (cc h)
load_policy_file-IsRead garbled p h = absurd (cc h)
load_policy_file-IsRead (document (obj raw)) p h = (raw, refl, load_object-IsRead raw p h)
load_policy_file-IsRead (document null) p h = absurd (cc h)
load_policy_file-IsRead (document (bool b)) p h = absurd (cc h)
load_policy_file-IsRead (document (int n)) p h = absurd (cc h)
load_policy_file-IsRead (document (float n d)) p h = absurd (cc h)
load_policy_file-IsRead (document nan) p h = absurd (cc h)
load_policy_file-IsRead (document (infinity b)) p h = absurd (cc h)
load_policy_file-IsRead (document (str s)) p h = absurd (cc h)
load_policy_file-IsRead (document (arr vs)) p h = absurd (cc h)

-- Whatever a file holds, a policy that is loaded from it is well-formed: its default and the
-- decision of each rule is one of the two words, each rule names a glob, and the risks of a rule
-- are among the four levels.
pub load_policy_file-is_policy :
    (file : PolicyText) (p : RuleProvider) → load_policy_file file ≡ loaded p → is_policy p ≡ true
load_policy_file-is_policy file p h =
    let (raw, e, r) = load_policy_file-IsRead file p h in
    ground (
      arith,
      read_default-kept _ p.default r.is_default,
      read_rules-kept 0 r.entries p.rules r.are_rules,
    )
