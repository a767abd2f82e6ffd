-- ===== src/Policy/PolicyFile.antt =====
-- `load_policy_file` of src/tesera/policy.py: a policy of rules from a JSON file. The messages of
-- PolicyError are constructors, with the index of the rule that is refused.
pub mod Format
pub mod Sound
pub mod Described
pub mod Complete
pub mod Allows
mod Tests
use tesera.Common.{
  ℕ, suc, Bool, true, false, not, Option, none, some, List, [], ◌∷◌, String, ◌&&◌, ◌||◌, any_of,
  all_of, str_eq, if◌then◌else◌,
}
use tesera.Json.{Json, Items, Fields, null, arr, nil, cons, end, field, find, get, as_str, as_obj}
use tesera.Policy.Rules.{Rule, RuleProvider, is_decision, init}

pub data PolicyError : Type 0 where
  cannot_read no_json no_object unknown_top_level rules_not_list bad_default : PolicyError
  rule_not_object unknown_keys no_action bad_decision risks_not_texts : ℕ → PolicyError
  unknown_risks bad_reason : ℕ → PolicyError
  not_made : PolicyError

pub data Load {ℓ} (A : Type ℓ) : Type ℓ where
  refused : PolicyError → Load A
  loaded : A → Load A

-- What follows, unless PolicyError was raised.
abbrev pub and_then {ℓ κ} : {A : Type ℓ} {B : Type κ} → Load A → (A → Load B) → Load B
and_then (refused e) f = refused e
and_then (loaded a) f = f a

-- What the read and `json.loads` give.
pub data PolicyText : Type 0 where
  unreadable garbled : PolicyText
  document : Json → PolicyText

-- `not (set(d) - {...})`
unfoldable pub all_keys : (String → Bool) → Fields → Bool
all_keys p end = true
all_keys p (field k v fs) = p k && all_keys p fs

abbrev pub is_policy_key : String → Bool
is_policy_key k = str_eq k "default" || str_eq k "rules"

abbrev pub is_rule_key : String → Bool
is_rule_key k =
    str_eq k "action" || (str_eq k "decision" || (str_eq k "risks" || str_eq k "reason"))

-- `RISK_LEVELS`
abbrev pub risk_levels : List String
risk_levels = "low" ∷ "medium" ∷ "high" ∷ "critical" ∷ []

abbrev pub is_risk_level : String → Bool
is_risk_level risk = any_of (λ r. str_eq r risk) risk_levels

-- The list of texts, if `all(isinstance(r, str) for r in risks)`.
abbrev pub cons_text : Option String → Option (List String) → Option (List String)
cons_text (some s) (some rest) = some (s ∷ rest)
cons_text (some s) none = none
cons_text none rest = none

unfoldable pub texts : Items → Option (List String)
texts nil = some []
texts (cons v vs) = cons_text (as_str v) (texts vs)

-- `not isinstance(action, str) or not action`
abbrev pub read_action : ℕ → Option String → Load String
read_action index none = refused (no_action index)
read_action index (some s) = if str_eq s "" then refused (no_action index) else loaded s

abbrev pub read_decision : ℕ → Option String → Load String
read_decision index none = refused (bad_decision index)
read_decision index (some s) = if is_decision s then loaded s else refused (bad_decision index)

abbrev pub read_levels : ℕ → Option (List String) → Load (Option (List String))
read_levels index none = refused (risks_not_texts index)
read_levels index (some risks) =
    if all_of is_risk_level risks then loaded (some risks) else refused (unknown_risks index)

-- The tests of `risks`: None, or a list of levels.
unfoldable pub read_risks : ℕ → Json → Load (Option (List String))
unfolding texts
read_risks index null = loaded none
read_risks index (arr vs) = read_levels index (texts vs)
read_risks index _ = refused (risks_not_texts index)

-- `entry.get("reason", "")`, which is to be a text.
abbrev pub read_text : ℕ → Option String → Load String
read_text index none = refused (bad_reason index)
read_text index (some s) = loaded s

abbrev pub read_reason : ℕ → Option Json → Load String
read_reason index none = loaded ""
read_reason index (some v) = read_text index (as_str v)

-- The tests of the fields of one entry, in their order.
unfoldable pub read_fields : ℕ → Fields → Load Rule
unfolding get read_risks
read_fields index entry = and_then (read_action index (as_str (get "action" entry))) (λ action.
    and_then (read_decision index (as_str (get "decision" entry))) (λ decision.
      and_then (read_risks index (get "risks" entry)) (λ risks.
        and_then (read_reason index (find "reason" entry)) (λ reason.
          loaded
            (record { action = action; decision = decision; risks = risks; reason = reason })))))

abbrev pub read_rule : ℕ → Fields → Load Rule
unfolding all_keys read_fields
read_rule index entry =
    if all_keys is_rule_key entry then read_fields index entry else refused (unknown_keys index)

abbrev pub read_entry : ℕ → Option Fields → Load Rule
read_entry index none = refused (rule_not_object index)
read_entry index (some entry) = read_rule index entry

-- The loop over the entries, from an index on.
unfoldable pub read_rules : ℕ → Items → Load (List Rule)
unfolding as_obj
read_rules index nil = loaded []
read_rules index (cons v vs) =
    let rest = read_rules (suc index) vs in
    and_then (read_entry index (as_obj v)) (λ rule. and_then rest (λ rules. loaded (rule ∷ rules)))

-- `raw.get("rules", [])`, which is to be a list.
unfoldable pub read_entries : Option Json → Load Items
read_entries none = loaded nil
read_entries (some (arr vs)) = loaded vs
read_entries (some _) = refused rules_not_list

abbrev pub read_word : Option String → Load String
read_word none = refused bad_default
read_word (some s) = if is_decision s then loaded s else refused bad_default

-- `raw.get("default", "denied")`
abbrev pub read_default : Option Json → Load String
read_default none = loaded "denied"
read_default (some v) = read_word (as_str v)

-- `RuleProvider(rules, default=default)`
abbrev pub made : Option RuleProvider → Load RuleProvider
made none = refused not_made
made (some p) = loaded p

unfoldable pub load_known : Fields → Load RuleProvider
unfolding find read_entries read_rules init
load_known raw = and_then (read_entries (find "rules" raw)) (λ entries.
    and_then (read_rules 0 entries) (λ rules.
      and_then (read_default (find "default" raw)) (λ default. made (init rules default))))

abbrev pub load_object : Fields → Load RuleProvider
unfolding all_keys load_known
load_object raw = if all_keys is_policy_key raw then load_known raw else refused unknown_top_level

abbrev pub load_json : Option Fields → Load RuleProvider
load_json none = refused no_object
load_json (some raw) = load_object raw

unfoldable pub load_policy_file : PolicyText → Load RuleProvider
unfolding as_obj
load_policy_file unreadable = refused cannot_read
load_policy_file garbled = refused no_json
load_policy_file (document v) = load_json (as_obj v)
