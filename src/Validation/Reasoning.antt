-- ===== src/Validation/Reasoning.antt =====
-- `_check_reasoning_contract`: the labels of the products, the colours and the rules, and what each rule
-- refers to. A message is a value that holds what it quotes.
pub mod Labels
pub mod Actions
pub mod Sound
pub mod Contract
pub mod Applies
mod Tests
use package.true.Catalog.Bm25.{bump_all}
use package.true.Catalog.Domain.{Row}
use package.true.DecisionRules.Grammar.{colon}
use package.true.DecisionRules.Json.{Json, Problem, Result, ok, raised}
use package.true.DecisionRules.Parse.{Rules, parse_decision_rules}
use package.true.Dict.{get_or}
use package.true.Floats.{Floats}
use package.true.Prelude.{
  Bool, List, Option, [], all, eqb, false, is_empty, length, ltb, map, none, not, select, some, ℕ,
  ◌&&◌, ◌++◌, ◌∷◌,
}
use package.true.Sort.{sort_asc}
use package.true.Text.{Text, contains, lit, text_less, to_set, ◌==◌}
use package.true.Text.Cut.{split_first}
use package.true.Validation.Problems.{flag, ◌>>=◌}

pub data Finding : Type 0 where
  wrong_count : Text → ℕ → Finding
  repeated_labels : Text → List Text → Finding
  labels_differ : Finding
  missing_rows unknown_rows : List Text → Finding
  bad_rules : Text → Problem → Finding
  unknown_style_action unknown_pattern_action unknown_pattern bad_confidence : Text → Text → Finding

-- {row.get(key, "") for row in rows}, before the set forgets how often a label stands
unfoldable pub labels : Text → List Row → List Text
labels key rows = map (λ row. get_or row key []) rows

-- sorted(value for value, count in counts.items() if count > 1)
unfoldable pub repeated : List Text → List Text
unfolding bump_all
repeated values =
    sort_asc text_less
      (map (λ (value, count). value) (select (λ (value, count). ltb 1 count) (bump_all [] values)))

-- one round of the loop over semantic_sets
unfoldable pub set_findings : Text → List Row → Text → List Finding
unfolding flag labels repeated
set_findings label rows key =
    flag (not (eqb (length rows) 192)) (wrong_count label (length rows))
    ++ flag (not (is_empty (repeated (labels key rows))))
        (repeated_labels label (repeated (labels key rows)))

-- sorted(a - b)
unfoldable pub only_in : List Text → List Text → List Text
only_in a b = sort_asc text_less (select (λ name. not (contains b name)) (to_set a))

-- a == b, for sets
unfoldable pub same_set : List Text → List Text → Bool
same_set a b = all (contains b) a && all (contains a) b

unfoldable pub label_findings : List Text → List Text → List Text → List Finding
unfolding flag only_in same_set
label_findings products colors reasoning =
    flag (not (same_set products colors)) labels_differ
    ++ (flag (not (is_empty (only_in products reasoning)))
          (missing_rows (only_in products reasoning))
        ++ flag (not (is_empty (only_in reasoning products)))
            (unknown_rows (only_in reasoning products)))

-- 0 <= float(confidence) <= 1, where `float` makes one
unfoldable pub is_share : (fl : Floats) → Option fl.Float → Bool
is_share fl none = false
is_share fl (some x) = fl.at_most (fl.whole 0) x && fl.at_most x (fl.whole 1)

-- the rules of a row, or the ValueError
unfoldable pub rules_of_row : (Text → Option Json) → Row → Result Rules
unfolding parse_decision_rules
rules_of_row loads row = parse_decision_rules loads (some (get_or row (lit "Decision_Rules") []))

module _ (style_ids patterns : List Text) where
  -- for action in actions: `none` where the split does not give two parts
  unfoldable pub action_findings : Text → List Text → Option (List Finding)
  unfolding flag
  action_findings category [] = some []
  action_findings category (action ∷ actions) = split_first colon action >>= λ (prefix, value).
      action_findings category actions >>= λ rest. some (
        flag (prefix == lit "style" && not (contains style_ids value))
          (unknown_style_action category value)
        ++ (flag (prefix == lit "pattern" && not (contains patterns value))
              (unknown_pattern_action category value)
            ++ rest))

  -- for actions in rules.values()
  unfoldable pub rules_findings : Text → Rules → Option (List Finding)
  unfolding action_findings
  rules_findings category [] = some []
  rules_findings category ((condition, actions) ∷ rules) =
      action_findings category actions >>= λ found.
      rules_findings category rules >>= λ rest. some (found ++ rest)

  module _ (fl : Floats) (float_of : Text → Option fl.Float) (loads : Text → Option Json) where
    unfoldable pub column_findings : Text → Row → List Finding
    unfolding flag is_share
    column_findings category row =
        let pattern = get_or row (lit "Recommended_Pattern") [] in
        let confidence = get_or row (lit "Confidence") [] in
        flag (not (contains patterns pattern)) (unknown_pattern category pattern)
        ++ flag (not (is_empty confidence) && not (is_share fl (float_of confidence)))
            (bad_confidence category confidence)

    -- the rest of the round, where the rules of the row are read
    unfoldable pub read_findings : Text → Row → Result Rules → Option (List Finding)
    unfolding rules_findings column_findings
    read_findings category row (raised error) = some (bad_rules category error ∷ [])
    read_findings category row (ok rules) =
        rules_findings category rules >>= λ found. some (found ++ column_findings category row)

    -- for row in reasoning
    unfoldable pub reasoning_findings : List Row → Option (List Finding)
    unfolding read_findings rules_of_row
    reasoning_findings [] = some []
    reasoning_findings (row ∷ rows) =
        read_findings (get_or row (lit "UI_Category") []) row (rules_of_row loads row) >>= λ found.
        reasoning_findings rows >>= λ rest. some (found ++ rest)

    -- `_check_reasoning_contract`; `none` where it raises
    unfoldable pub check_reasoning_contract : List Row → List Row → List Row → Option (List Finding)
    unfolding set_findings label_findings reasoning_findings labels
    check_reasoning_contract products colors reasoning = reasoning_findings reasoning >>= λ found.
        some (
          set_findings (lit "products") products (lit "Product Type")
          ++ (set_findings (lit "colors") colors (lit "Product Type")
              ++ (set_findings (lit "reasoning") reasoning (lit "UI_Category")
                  ++ (label_findings (labels (lit "Product Type") products)
                        (labels (lit "Product Type") colors) (labels (lit "UI_Category") reasoning)
                      ++ found))))
