-- ===== src/DecisionRules/Parse/Complete.antt =====
-- `parse_decision_rules` accepts every rule set of the grammar, and returns it unchanged.
-- The tree that spells the rules.
use package.true.DecisionRules.Grammar.{IsAction, validate_action_complete}
use package.true.DecisionRules.Json.{
  Fields, Items, Json, arr, cons, end, field, hook, hook_fields, hook_items, keys, nil, obj, ok,
  str, without_duplicates_complete,
}
use package.true.DecisionRules.Parse.{
  IsRule, IsRules, Rules, check_actions, check_condition, check_fields, check_rules, check_unique,
  conditions, hook_and_check, parse_decision_rules, raw_or_empty,
}
use package.true.Prelude.{All, List, Option, [], ap, arith, false, refl, some, ◌∷◌, ◌≡◌}
use package.true.Text.{Distinct, Distinct-to_set, Text, contains}

pub to_items : List Text → Items
to_items [] = nil
to_items (a ∷ actions) = cons (str a) (to_items actions)

unfoldable pub to_fields : Rules → Fields
unfolding to_items
to_fields [] = end
to_fields ((k, actions) ∷ rules) = field k (arr (to_items actions)) (to_fields rules)

keys-to_fields : (rules : Rules) → keys (to_fields rules) ≡ conditions rules
unfolding to_fields
keys-to_fields [] = refl
keys-to_fields ((k, actions) ∷ rules) = ap (λ ks. k ∷ ks) (keys-to_fields rules)

hook-to_items : (actions : List Text) → hook_items (to_items actions) ≡ ok (to_items actions)
unfolding hook to_items
hook-to_items [] = refl
hook-to_items (a ∷ actions) = rw (hook-to_items actions)

hook-to_fields : (rules : Rules) → hook_fields (to_fields rules) ≡ ok (to_fields rules)
unfolding hook to_fields
hook-to_fields [] = refl
hook-to_fields ((k, actions) ∷ rules) = rw (hook-to_items actions) (rw (hook-to_fields rules))

check-to_items :
    (actions : List Text) → All IsAction actions → check_actions (to_items actions) ≡ ok actions
unfolding check_actions to_items
check-to_items [] h = refl
check-to_items (a ∷ actions) h =
    rw (validate_action_complete a h.0) (rw (check-to_items actions h.1))

check_unique_complete :
    (k : Text) (actions : List Text) → Distinct actions → check_unique k actions ≡ ok actions
unfolding check_unique
check_unique_complete k actions d = ground (arith, Distinct-to_set actions d)

check_condition-to_items :
    (k : Text) (actions : List Text)
    → IsRule k actions
    → check_condition k (arr (to_items actions)) ≡ ok actions
unfolding check_condition to_items
check_condition-to_items k [] r = absurd (r.some_action refl)
check_condition-to_items k (a ∷ actions) r = rw (r.allowed) (
    rw (check-to_items (a ∷ actions) r.well_formed)
      (check_unique_complete k (a ∷ actions) r.unique))

check-to_fields :
    (rules : Rules)
    → All (λ (condition, actions). IsRule condition actions) rules
    → check_fields (to_fields rules) ≡ ok rules
unfolding check_fields to_fields
check-to_fields [] h = refl
check-to_fields ((k, actions) ∷ rules) h =
    rw (check_condition-to_items k actions h.0) (rw (check-to_fields rules h.1))

unseen : (ks : List Text) → All (λ k. contains [] k ≡ false) ks
unseen [] = tt
unseen (k ∷ ks) = (refl, unseen ks)

hook-obj :
    (rules : Rules) → IsRules rules → hook (obj (to_fields rules)) ≡ ok (obj (to_fields rules))
unfolding hook
hook-obj rules r =
    let fs = to_fields rules in
    let lone : Distinct (keys fs) = rw keys-to_fields (r.distinct) in
    rw (hook-to_fields rules) (rw (without_duplicates_complete [] fs lone (unseen (keys fs))))

-- Rules in the grammar, spelled as a JSON object that the decoder reads, are accepted and come back
-- as they were, in their order.
pub parse_decision_rules-to_fields :
    (loads : Text → Option Json) (raw : Option Text) (rules : Rules)
    → IsRules rules
    → loads (raw_or_empty raw) ≡ some (obj (to_fields rules))
    → parse_decision_rules loads raw ≡ ok rules
unfolding parse_decision_rules check_rules
parse_decision_rules-to_fields loads raw rules r e =
    rw (e, hook_and_check) (rw (hook-obj rules r) (check-to_fields rules r.each))
