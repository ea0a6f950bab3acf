-- ===== src/DecisionRules/Apply.antt =====
-- `apply_decision_rules`: the rules whose condition a query meets, and what their actions set.
pub mod Loop
pub mod Audit
pub mod Safe
use package.true.DecisionRules.Grammar.{colon}
use package.true.DecisionRules.Json.{Result, raised, no_prefix, ok, ◌>>=◌}
use package.true.DecisionRules.Parse.{Rules}
use package.true.DecisionRules.Signals.{signalled}
use package.true.Prelude.{
  Bool, List, Option, [], false, if◌then◌else◌, none, not, some, true, ◌&&◌, ◌++◌, ◌||◌, ◌∷◌,
}
use package.true.Text.{Text, contains, lit, lower, ◌==◌}
use package.true.Text.Cut.{split_first}

-- The dictionary that the function builds and returns.
pub record Outcome : Type 0 where
  pub activated : Rules
  pub style_ids : List Text
  pub constraints : List Text
  pub pattern : Option Text
  pub mode : Option Text

abbrev pub nothing_set : Outcome
nothing_set = record {
  activated = [];
  style_ids = [];
  constraints = [];
  pattern = none;
  mode = none;
}

-- the chain of tests on one action
unfoldable pub apply_action : Text × Text → Outcome → Outcome
apply_action (prefix, value) o =
    if prefix == lit "style" && not (contains o.style_ids value)
    then record o { style_ids = o.style_ids ++ value ∷ [] }
    else if prefix == lit "constraint" && not (contains o.constraints value)
    then record o { constraints = o.constraints ++ value ∷ [] }
    else if prefix == lit "pattern"
    then record o { pattern = some value }
    else if prefix == lit "mode"
    then record o { mode = some value }
    else o

-- `prefix, value = action.split(":", 1)` raises a ValueError where there is no colon
unfoldable pub apply_actions : List Text → Outcome → Result Outcome
apply_actions [] o = ok o
apply_actions (a ∷ actions) o = elim (split_first colon a) [
  | none ↦ raised (no_prefix a)
  | some cut ↦ apply_actions actions (apply_action cut o)
]

-- the text that is searched for signals: str(query or "").casefold()
unfoldable pub normalized : Option Text → Text
normalized none = []
normalized (some q) = lower q

unfoldable pub is_active : Text → Text → Bool
is_active text condition = condition == lit "must_have" || signalled condition text

-- for condition, actions in rules.items()
unfoldable pub apply_rules : Rules → Text → Outcome → Result Outcome
apply_rules [] text o = ok o
apply_rules ((condition, actions) ∷ rules) text o = elim (is_active text condition) [
  | false ↦ apply_rules rules text o
  | true ↦
      apply_actions actions (record o { activated = o.activated ++ (condition, actions) ∷ [] })
      >>= apply_rules rules text
]

unfoldable pub apply_decision_rules : Rules → Option Text → Result Outcome
apply_decision_rules rules query = apply_rules rules (normalized query) nothing_set
