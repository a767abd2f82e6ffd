-- ===== src/Policy/PolicyFile/Described.antt =====
-- A policy that `load_policy_file` of src/tesera/policy.py returns is described by its file.
use tesera.Common.{
  ℕ, suc, Bool, true, false, Option, none, some, Option-cases, inl, inr, ◌⊎◌, List, [], ◌∷◌, String,
  str_eq, all_of, ◌≡◌, refl, ap, sym, ◌∙◌, subst, if◌then◌else◌,
}
use tesera.Json.{
  Json, Items, Fields, null, bool, int, float, nan, infinity, str, arr, obj, nil, cons, find, get,
  as_str, as_obj,
}
use tesera.Policy.Rules.{Rule, RuleProvider, is_decision}
use tesera.Policy.PolicyFile.{
  Load, refused, loaded, PolicyText, document, is_risk_level, texts, read_action, read_decision,
  read_levels, read_risks, read_reason, read_text, read_entry, read_rules, read_entries, read_word,
  read_default, load_policy_file, no_action, bad_decision, unknown_risks, bad_default, PolicyError,
}
use tesera.Policy.PolicyFile.Format.{
  print_texts, DescribesRisks, TextOr, DescribesRules, DescribesPolicy,
}
use tesera.Policy.PolicyFile.Sound.{
  loaded_inj, and_then-loaded, kept-passes, read_action-kept, read_decision-kept, read_default-kept,
  read_entry-IsReadRule, load_policy_file-IsRead,
}

as_str-text : (v : Json) (s : String) → as_str v ≡ some s → v ≡ str s
unfolding as_str
as_str-text null s h = absurd (cc h)
as_str-text (bool b) s h = absurd (cc h)
as_str-text (int n) s h = absurd (cc h)
as_str-text (float n d) s h = absurd (cc h)
as_str-text nan s h = absurd (cc h)
as_str-text (infinity b) s h = absurd (cc h)
as_str-text (str t) s h = cc h
as_str-text (arr vs) s h = absurd (cc h)
as_str-text (obj fs) s h = absurd (cc h)

as_obj-object : (v : Json) (fs : Fields) → as_obj v ≡ some fs → v ≡ obj fs
unfolding as_obj
as_obj-object null fs h = absurd (cc h)
as_obj-object (bool b) fs h = absurd (cc h)
as_obj-object (int n) fs h = absurd (cc h)
as_obj-object (float n d) fs h = absurd (cc h)
as_obj-object nan fs h = absurd (cc h)
as_obj-object (infinity b) fs h = absurd (cc h)
as_obj-object (str t) fs h = absurd (cc h)
as_obj-object (arr vs) fs h = absurd (cc h)
as_obj-object (obj gs) fs h = cc h

-- A text under a key is there.
get-find : (k s : String) (fs : Fields) → as_str (get k fs) ≡ some s → find k fs ≡ some (str s)
unfolding get as_str
get-find k s fs h = elim (Option-cases (find k fs)) [
  | inl n ↦ absurd (cc (rw (n, get) at h))
  | inr (v, e) ↦ e ∙ ap some (as_str-text v s (rw (e, get) at h))
]

read_action-text :
    (index : ℕ) (o : Option String) (s : String) → read_action index o ≡ loaded s → o ≡ some s
read_action-text index none s h = absurd (cc h)
read_action-text index (some t) s h =
    ap some (loaded_inj t s (refused_first (str_eq t "") (no_action index) (loaded t) s h))
  where
    refused_first :
        (b : Bool) (e : PolicyError) (m : Load String) (s : String)
        → (if b then refused e else m) ≡ loaded s
        → m ≡ loaded s
    refused_first true e m s h = absurd (cc h)
    refused_first false e m s h = h

read_decision-text :
    (index : ℕ) (o : Option String) (s : String) → read_decision index o ≡ loaded s → o ≡ some s
read_decision-text index none s h = absurd (cc h)
read_decision-text index (some t) s h =
    ap some (loaded_inj t s (kept-passes (is_decision t) (bad_decision index) (loaded t) s h).1)

texts-print : (vs : Items) (rs : List String) → texts vs ≡ some rs → vs ≡ print_texts rs
unfolding texts
texts-print nil rs h = ap print_texts (some_texts [] rs h)
  where
    some_texts : (a b : List String) → some a ≡ some b → a ≡ b
    some_texts a b h = cc h
texts-print (cons v vs) rs h = elim (Option-cases (as_str v)) [
  | inl n ↦ absurd (cc (rw (n, texts) at h))
  | inr (s, e) ↦ elim (Option-cases (texts vs)) [
    | inl m ↦ absurd (cc (rw (e, m, texts) at h))
    | inr (rest, t) ↦
        let same : s ∷ rest ≡ rs = cc (rw (e, t, texts) at h) in
        rw (as_str-text v s e, texts-print vs rest t) (ap print_texts same)
  ]
]

read_levels-Describes :
    (index : ℕ) (vs : Items) (o : Option (List String)) (risks : Option (List String))
    → texts vs ≡ o
    → read_levels index o ≡ loaded risks
    → DescribesRisks (arr vs) risks
read_levels-Describes index vs none risks t h = absurd (cc h)
read_levels-Describes index vs (some rs) risks t h =
    let (y, e) =
      kept-passes (all_of is_risk_level rs) (unknown_risks index) (loaded (some rs)) risks h in
    subst (DescribesRisks (arr vs)) (loaded_inj (some rs) risks e) (ap arr (texts-print vs rs t), y)

read_risks-Describes :
    (index : ℕ) (v : Json) (risks : Option (List String))
    → read_risks index v ≡ loaded risks
    → DescribesRisks v risks
unfolding read_risks
read_risks-Describes index null risks h = subst (DescribesRisks null) (loaded_inj none risks h) refl
read_risks-Describes index (arr vs) risks h = read_levels-Describes index vs (texts vs) risks refl h
read_risks-Describes index (bool b) risks h = absurd (cc h)
read_risks-Describes index (int n) risks h = absurd (cc h)
read_risks-Describes index (float n d) risks h = absurd (cc h)
read_risks-Describes index nan risks h = absurd (cc h)
read_risks-Describes index (infinity b) risks h = absurd (cc h)
read_risks-Describes index (str s) risks h = absurd (cc h)
read_risks-Describes index (obj fs) risks h = absurd (cc h)

read_text-text :
    (index : ℕ) (o : Option String) (s : String) → read_text index o ≡ loaded s → o ≡ some s
read_text-text index none s h = absurd (cc h)
read_text-text index (some t) s h = cc h

read_reason-TextOr :
    (index : ℕ) (o : Option Json) (s : String) → read_reason index o ≡ loaded s → TextOr "" o s
read_reason-TextOr index none s h = inr (refl, sym (loaded_inj "" s h))
read_reason-TextOr index (some v) s h =
    inl (ap some (as_str-text v s (read_text-text index (as_str v) s h)))

read_rules-Describes :
    (index : ℕ) (vs : Items) (rules : List Rule)
    → read_rules index vs ≡ loaded rules
    → DescribesRules vs rules
unfolding read_rules
read_rules-Describes index nil rules h = subst (DescribesRules nil) (loaded_inj [] rules h) tt
read_rules-Describes index (cons v vs) rules h =
    let (rule, e, h1) = and_then-loaded (read_entry index (as_obj v)) _ rules h in
    let (rest, t, h2) = and_then-loaded (read_rules (suc index) vs) _ rules h1 in
    let (entry, is_object, keys, r) = read_entry-IsReadRule index (as_obj v) rule e in
    let action = read_action-text index (as_str (get "action" entry)) rule.action r.is_action in
    let decision =
      read_decision-text index (as_str (get "decision" entry)) rule.decision r.is_decided in
    subst (DescribesRules (cons v vs)) (loaded_inj (rule ∷ rest) rules h2) (
      (
        entry,
        as_obj-object v entry is_object,
        record {
          only_keys = keys;
          has_action = get-find "action" rule.action entry action;
          is_named = read_action-kept index (as_str (get "action" entry)) rule.action r.is_action;
          has_decision = get-find "decision" rule.decision entry decision;
          decides =
              read_decision-kept index (as_str (get "decision" entry)) rule.decision r.is_decided;
          has_risks = read_risks-Describes index (get "risks" entry) rule.risks r.are_risks;
          has_reason = read_reason-TextOr index (find "reason" entry) rule.reason r.is_reason;
        },
      ),
      read_rules-Describes (suc index) vs rest t,
    )

read_entries-list :
    (o : Option Json) (vs : Items)
    → read_entries o ≡ loaded vs
    → (o ≡ some (arr vs)) ⊎ ((o ≡ none) × (vs ≡ nil))
unfolding read_entries
read_entries-list none vs h = inr (refl, sym (loaded_inj nil vs h))
read_entries-list (some (arr ws)) vs h = inl (ap (λ l. some (arr l)) (loaded_inj ws vs h))
read_entries-list (some null) vs h = absurd (cc h)
read_entries-list (some (bool b)) vs h = absurd (cc h)
read_entries-list (some (int n)) vs h = absurd (cc h)
read_entries-list (some (float n d)) vs h = absurd (cc h)
read_entries-list (some nan) vs h = absurd (cc h)
read_entries-list (some (infinity b)) vs h = absurd (cc h)
read_entries-list (some (str s)) vs h = absurd (cc h)
read_entries-list (some (obj fs)) vs h = absurd (cc h)

read_word-text : (o : Option String) (s : String) → read_word o ≡ loaded s → o ≡ some s
read_word-text none s h = absurd (cc h)
read_word-text (some t) s h =
    ap some (loaded_inj t s (kept-passes (is_decision t) bad_default (loaded t) s h).1)

read_default-TextOr :
    (o : Option Json) (s : String) → read_default o ≡ loaded s → TextOr "denied" o s
read_default-TextOr none s h = inr (refl, sym (loaded_inj "denied" s h))
read_default-TextOr (some v) s h = inl (ap some (as_str-text v s (read_word-text (as_str v) s h)))

-- The file is an object that gives the policy.
pub load_policy_file-described :
    (file : PolicyText) (p : RuleProvider)
    → load_policy_file file ≡ loaded p
    → (raw : Fields) × (file ≡ document (obj raw)) × DescribesPolicy raw p
load_policy_file-described file p h =
    let (raw, e, r) = load_policy_file-IsRead file p h in
    (
      raw,
      e,
      record {
        entries = r.entries;
        only_keys = r.only_keys;
        has_entries = read_entries-list (find "rules" raw) r.entries r.are_entries;
        gives_rules = read_rules-Describes 0 r.entries p.rules r.are_rules;
        has_default = read_default-TextOr (find "default" raw) p.default r.is_default;
        is_word = read_default-kept (find "default" raw) p.default r.is_default;
      },
    )
