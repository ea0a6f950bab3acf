-- ===== src/DecisionRules/Parse.antt =====
-- `parse_decision_rules`: what it accepts, and that it accepts the whole grammar.
pub mod Sound
pub mod Complete
use package.true.DecisionRules.Grammar.{IsAction, validate_action}
use package.true.DecisionRules.Json.{
  Fields, Items, Json, Result, arr, bad_json, cons, duplicate_actions, end, raised, field, hook,
  nil, no_actions, not_object, obj, ok, unknown_condition, ◌>>=◌,
}
use package.true.DecisionRules.Signals.{is_allowed}
use package.true.Dict.{Dict}
use package.true.Prelude.{
  All, List, Option, [], eqb, if◌then◌else◌, length, map, none, some, true, ◌∷◌, ◌≡◌, ◌≢◌,
}
use package.true.Text.{Distinct, Text, lit, to_set}

abbrev pub Rules : Type 0
Rules = Dict (List Text)

-- for action in actions: _validate_action(action)
check_actions : Items → Result (List Text)
check_actions nil = ok []
check_actions (cons x xs) = do a ← validate_action x; rest ← check_actions xs; ok (a ∷ rest)

check_unique : Text → List Text → Result (List Text)
check_unique condition actions =
    if eqb (length actions) (length (to_set actions))
    then ok actions
    else raised (duplicate_actions condition)

-- the value of a condition: a list that is not empty
check_list : Text → Json → Result (List Text)
unfolding check_actions check_unique
check_list condition (arr (cons x xs)) = do
  actions ← check_actions (cons x xs)
  check_unique condition actions
check_list condition _ = raised (no_actions condition)

check_condition : Text → Json → Result (List Text)
unfolding check_list
check_condition condition value =
    if is_allowed condition
    then check_list condition value
    else raised (unknown_condition condition)

-- for condition, actions in rules.items()
check_fields : Fields → Result Rules
unfolding check_condition
check_fields end = ok []
check_fields (field k v fs) = do
  actions ← check_condition k v
  rest ← check_fields fs
  ok ((k, actions) ∷ rest)

-- isinstance(rules, dict)
unfoldable pub check_rules : Json → Result Rules
unfolding check_fields
check_rules (obj fs) = check_fields fs
check_rules _ = raised not_object

-- raw or "{}"
unfoldable pub raw_or_empty : Option Text → Text
raw_or_empty none = lit "{}"
raw_or_empty (some []) = lit "{}"
raw_or_empty (some (c ∷ t)) = c ∷ t

hook_and_check : Option Json → Result Rules
unfolding check_rules
hook_and_check none = raised bad_json
hook_and_check (some tree) = do rules ← hook tree; check_rules rules

-- `loads` is the decoder of `json.loads`: the tree that a text spells, or `none` for a
-- JSONDecodeError.
unfoldable pub parse_decision_rules : (Text → Option Json) → Option Text → Result Rules
unfolding hook_and_check
parse_decision_rules loads raw = hook_and_check (loads (raw_or_empty raw))

-- One condition with its actions.
pub record IsRule (condition : Text) (actions : List Text) : Type 0 where
  pub allowed : is_allowed condition ≡ true
  pub some_action : actions ≢ []
  pub well_formed : All IsAction actions
  pub unique : Distinct actions

abbrev pub conditions : Rules → List Text
conditions rules = map (λ (condition, _). condition) rules

-- No condition twice, and each a rule.
pub record IsRules (rules : Rules) : Type 0 where
  pub distinct : Distinct (conditions rules)
  pub each : All (λ (condition, actions). IsRule condition actions) rules
