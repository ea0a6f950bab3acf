-- ===== src/DecisionRules/Parse/Sound.antt =====
-- What `parse_decision_rules` accepts is in the grammar.
use package.true.DecisionRules.Grammar.{IsAction, validate_action, validate_action_sound}
use package.true.DecisionRules.Json.{
  returns-bind, Fields, Items, Json, arr, boolean, returns-both, cons, end, field, hook,
  hook_fields, hook_items, keys, nil, null, number, obj, ok, str, without_duplicates,
  without_duplicates_sound, ◌>>=◌,
}
use package.true.DecisionRules.Parse.{
  IsRule, IsRules, Rules, check_actions, check_condition, check_fields, check_rules, check_unique,
  conditions, hook_and_check, parse_decision_rules, raw_or_empty,
}
use package.true.DecisionRules.Signals.{is_allowed}
use package.true.Prelude.{
  All, Bool-cases, List, Option, [], ap, arith, inl, inr, none, refl, some, ◌∙◌, ◌∷◌, ◌≡◌, ◌≢◌,
}
use package.true.Text.{Distinct, Text, to_set-Distinct}

check_actions_sound :
    (xs : Items) {actions : List Text} → check_actions xs ≡ ok actions → All IsAction actions
unfolding check_actions
check_actions_sound nil {actions} h = let e : actions ≡ [] = cc in rw e tt
check_actions_sound (cons x xs) h =
    let (a, rest, e, e', whole) =
      returns-both (validate_action x) (check_actions xs) (λ a rest. a ∷ rest) h in
    rw whole ((validate_action_sound x e).1, check_actions_sound xs e')

check_actions-ne-nil :
    (x : Json) (xs : Items) {actions : List Text}
    → check_actions (cons x xs) ≡ ok actions
    → actions ≢ []
unfolding check_actions
check_actions-ne-nil x xs h =
    let (a, rest, e, e', whole) =
      returns-both (validate_action x) (check_actions xs) (λ a rest. a ∷ rest) h in
    λ k. cc

check_unique_sound :
    (condition : Text) (given : List Text) {actions : List Text}
    → check_unique condition given ≡ ok actions
    → (actions ≡ given) × Distinct given
unfolding check_unique
check_unique_sound condition given h = (ground arith, to_set-Distinct given (ground arith))

check_condition_sound :
    (condition : Text) (value : Json) {actions : List Text}
    → check_condition condition value ≡ ok actions
    → IsRule condition actions
unfolding check_condition
check_condition_sound condition (arr (cons x xs)) h = elim (Bool-cases (is_allowed condition)) [
  | inl e ↦
      let (given, c, u) =
        returns-bind (check_actions (cons x xs)) (check_unique condition) (rw e at h) in
      let (same, distinct) = check_unique_sound condition given u in
      rw same (record {
        allowed = e;
        some_action = check_actions-ne-nil x xs c;
        well_formed = check_actions_sound (cons x xs) c;
        unique = distinct;
      })
  | inr e ↦ absurd (ground (arith, e))
]
check_condition_sound condition (arr nil) h = absurd (ground arith)
check_condition_sound condition (str t) h = absurd (ground arith)
check_condition_sound condition (number t) h = absurd (ground arith)
check_condition_sound condition (boolean b) h = absurd (ground arith)
check_condition_sound condition null h = absurd (ground arith)
check_condition_sound condition (obj fs) h = absurd (ground arith)

check_fields_sound :
    (fs : Fields) {rules : Rules}
    → check_fields fs ≡ ok rules
    → (conditions rules ≡ keys fs) × All (λ (condition, actions). IsRule condition actions) rules
unfolding check_fields
check_fields_sound end {rules} h = let e : rules ≡ [] = cc in rw e (refl, tt)
check_fields_sound (field k v fs) h =
    let (actions, rest, e, e', whole) =
      returns-both (check_condition k v) (check_fields fs) (λ a r. (k, a) ∷ r) h in
    let (same, each) = check_fields_sound fs e' in
    rw whole (ap (λ ks. k ∷ ks) same, (check_condition_sound k v e, each))

-- An object that passes the hook has no key twice.
hook-Distinct : (tree : Json) {fs : Fields} → hook tree ≡ ok (obj fs) → Distinct (keys fs)
unfolding hook
hook-Distinct (obj gs) {fs} h =
    let (hs, e, k) =
      returns-bind (hook_fields gs) (λ hs. without_duplicates [] hs >>= λ fs. ok (obj fs)) h in
    let (fs', e', k') = returns-bind (without_duplicates [] hs) (λ fs. ok (obj fs)) k in
    let (same, distinct, fresh) = without_duplicates_sound [] hs e' in
    let whole : fs' ≡ fs = cc in rw (← whole) (rw same distinct)
hook-Distinct (arr xs) h =
    let (ys, e, k) = returns-bind (hook_items xs) (λ ys. ok (arr ys)) h in absurd (cc)
hook-Distinct null h = absurd (cc)
hook-Distinct (boolean b) h = absurd (cc)
hook-Distinct (number n) h = absurd (cc)
hook-Distinct (str t) h = absurd (cc)

check_rules-obj :
    (v : Json) {rules : Rules}
    → check_rules v ≡ ok rules
    → (fs : Fields) × (v ≡ obj fs) × (check_fields fs ≡ ok rules)
unfolding check_rules
check_rules-obj (obj fs) h = (fs, refl, h)
check_rules-obj null h = absurd (cc)
check_rules-obj (boolean b) h = absurd (cc)
check_rules-obj (number n) h = absurd (cc)
check_rules-obj (str t) h = absurd (cc)
check_rules-obj (arr xs) h = absurd (cc)

tree_sound : (o : Option Json) {rules : Rules} → hook_and_check o ≡ ok rules → IsRules rules
unfolding hook_and_check
tree_sound none h = absurd (cc)
tree_sound (some tree) h =
    let (v, e, k) = returns-bind (hook tree) check_rules h in
    let (fs, shape, c) = check_rules-obj v k in
    let (same, each) = check_fields_sound fs c in
    record { distinct = rw same (hook-Distinct tree (e ∙ ap ok shape)); each = each }

-- Whatever the text and the decoder, rules that the parser returns are in the grammar: no
-- condition stands twice, each is a known one with at least one action, no action stands twice
-- under it, and each action is a known prefix, a colon and a value that the prefix allows.
pub parse_decision_rules-IsRules :
    (loads : Text → Option Json) (raw : Option Text) (rules : Rules)
    → parse_decision_rules loads raw ≡ ok rules
    → IsRules rules
unfolding parse_decision_rules
parse_decision_rules-IsRules loads raw rules h = tree_sound (loads (raw_or_empty raw)) h
