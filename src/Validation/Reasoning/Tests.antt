-- ===== src/Validation/Reasoning/Tests.antt =====
-- One row of rules, as the contract reads it.
use package.true.Catalog.Bm25.{bump}
use package.true.Catalog.Domain.{Row}
use package.true.DecisionRules.Grammar.{is_token_char, token, validate_action}
use package.true.DecisionRules.Json.{Json, hook, obj, without_duplicates}
use package.true.DecisionRules.Parse.{Rules}
use package.true.DecisionRules.Parse.Complete.{to_fields}
use package.true.DecisionRules.Signals.{is_allowed}
use package.true.Dict.{get_or, put}
use package.true.Floats.{whole_floats}
use package.true.Prelude.{All, List, Option, [], refl, some, ℕ, ◌∷◌, ◌≡◌, ◌≢◌, ◌⊎◌}
use package.true.Regex.{fullmatch}
use package.true.Sort.{sort_asc}
use package.true.Text.{Text, Text-discrete, lit, to_set}
use package.true.Text.Cut.{split_first, strip}
use package.true.Validation.Reasoning.{
  Finding, check_reasoning_contract, reasoning_findings, repeated, unknown_style_action,
}
use package.true.Validation.Reasoning.Applies.{Applies, reasoning_findings-Applies}
use package.true.Validation.Reasoning.Contract.{AreReasoned, check_reasoning_contract-AreReasoned}

abbrev minimal : Rules
minimal = (lit "must_have", lit "style:minimal" ∷ lit "pattern:Calendar" ∷ []) ∷ []

-- a decoder that knows one text, and a float of every text
abbrev reads_minimal : Text → Option Json
reads_minimal _ = some (obj (to_fields minimal))

abbrev one : Text → Option ℕ
one _ = some 1

abbrev known_styles : List Text
known_styles = lit "minimal" ∷ []

abbrev known_patterns : List Text
known_patterns = lit "Calendar" ∷ []

abbrev rows_of_rules : List Row
rows_of_rules =
    ((lit "UI_Category", lit "Booking")
      ∷ (lit "Decision_Rules", lit "{ }")
      ∷ (lit "Recommended_Pattern", lit "Calendar")
      ∷ (lit "Confidence", lit "1")
      ∷ [])
    ∷ []

nothing_found :
    reasoning_findings known_styles known_patterns whole_floats one reads_minimal rows_of_rules
    ≡ some []
unfolding reasoning_findings hook to_fields without_duplicates is_allowed Text-discrete lit
    validate_action split_first fullmatch token is_token_char strip to_set get_or
nothing_found = refl

-- a style that there is not
style_found :
    reasoning_findings [] known_patterns whole_floats one reads_minimal rows_of_rules
    ≡ some (unknown_style_action (lit "Booking") (lit "minimal") ∷ [])
unfolding reasoning_findings hook to_fields without_duplicates is_allowed Text-discrete lit
    validate_action split_first fullmatch token is_token_char strip to_set get_or
style_found = refl

twice_found : repeated (lit "b" ∷ lit "a" ∷ lit "b" ∷ []) ≡ lit "b" ∷ []
unfolding repeated sort_asc bump put Text-discrete lit get_or
twice_found = refl

reasoning_findings-Applies_example :
    All
      (Applies known_styles known_patterns whole_floats one reads_minimal
        (some (lit "a booking app")))
      rows_of_rules
reasoning_findings-Applies_example =
    reasoning_findings-Applies known_styles known_patterns whole_floats one reads_minimal
      (some (lit "a booking app")) rows_of_rules nothing_found

check_reasoning_contract-AreReasoned_example :
    (found : List Finding) × (check_reasoning_contract known_styles known_patterns whole_floats one
        reads_minimal [] [] rows_of_rules
      ≡ some found)
    × ((found ≢ [])
        ⊎ AreReasoned known_styles known_patterns whole_floats one reads_minimal [] []
            rows_of_rules)
check_reasoning_contract-AreReasoned_example =
    check_reasoning_contract-AreReasoned known_styles known_patterns whole_floats one reads_minimal
      [] [] rows_of_rules
