-- ===== src/DecisionRules/Tests.antt =====
-- Runs of the rule parser and of the rules, and the theorems at concrete inputs.
use package.true.DecisionRules.Apply.{
  Outcome, apply_action, apply_actions, apply_decision_rules, apply_rules, is_active, normalized,
}
use package.true.DecisionRules.Apply.Audit.{active, apply_decision_rules-audit, audit}
use package.true.DecisionRules.Apply.Safe.{IsSafe, apply-parse-IsSafe}
use package.true.DecisionRules.Grammar.{is_token_char, token, validate_action}
use package.true.DecisionRules.Json.{Json, hook, obj, ok, without_duplicates}
use package.true.DecisionRules.Parse.{IsRules, Rules, parse_decision_rules}
use package.true.DecisionRules.Parse.Complete.{parse_decision_rules-to_fields, to_fields}
use package.true.DecisionRules.Parse.Sound.{parse_decision_rules-IsRules}
use package.true.DecisionRules.Signals.{condition_signals, is_allowed, signalled}
use package.true.Dict.{get_or, has_key}
use package.true.Prelude.{Option, [], none, refl, some, ℕ_discrete, ◌∷◌, ◌≡◌}
use package.true.Regex.{fullmatch}
use package.true.Text.{Text, Text-discrete, is_word, lit, lower, to_set}
use package.true.Text.Cut.{split_first, strip}
use package.true.Text.Phrase.{has_phrase, phrase_here}

abbrev booking : Rules
booking =
    (lit "must_have", lit "style:minimal" ∷ lit "constraint:grid-8" ∷ [])
    ∷ (lit "if_booking", lit "pattern:Calendar First" ∷ lit "mode:dark" ∷ [])
    ∷ []

-- a decoder that knows one text
abbrev reads_booking : Text → Option Json
reads_booking _ = some (obj (to_fields booking))

parses : parse_decision_rules reads_booking (some (lit "{ }")) ≡ ok booking
unfolding parse_decision_rules hook validate_action without_duplicates is_allowed condition_signals
    has_key to_fields lit Text-discrete ℕ_discrete split_first fullmatch token is_token_char strip
    to_set
parses = refl

applies :
    apply_decision_rules booking (some (lit "Booking app"))
    ≡ ok (record {
      activated = booking;
      style_ids = lit "minimal" ∷ [];
      constraints = lit "grid-8" ∷ [];
      pattern = some (lit "Calendar First");
      mode = some (lit "dark");
    })
unfolding apply_decision_rules apply_rules apply_actions apply_action is_active signalled
    condition_signals get_or has_phrase phrase_here is_word lit Text-discrete ℕ_discrete split_first
    normalized lower
applies = refl

-- "booking" inside a longer word switches nothing on
no_signal :
    apply_decision_rules booking (some (lit "overbooking"))
    ≡ ok (record {
      activated = (lit "must_have", lit "style:minimal" ∷ lit "constraint:grid-8" ∷ []) ∷ [];
      style_ids = lit "minimal" ∷ [];
      constraints = lit "grid-8" ∷ [];
      pattern = none;
      mode = none;
    })
unfolding apply_decision_rules apply_rules apply_actions apply_action is_active signalled
    condition_signals get_or has_phrase phrase_here is_word lit Text-discrete ℕ_discrete split_first
    normalized lower
no_signal = refl

booking-IsRules : IsRules booking
booking-IsRules = parse_decision_rules-IsRules reads_booking (some (lit "{ }")) booking parses

parse_decision_rules-IsRules_example : IsRules booking
parse_decision_rules-IsRules_example =
    parse_decision_rules-IsRules reads_booking (some (lit "{ }")) booking parses

parse_decision_rules-to_fields_example : parse_decision_rules reads_booking none ≡ ok booking
parse_decision_rules-to_fields_example =
    parse_decision_rules-to_fields reads_booking none booking booking-IsRules refl

apply_decision_rules-audit_example :
    apply_decision_rules booking (some (lit "Booking app"))
    ≡ ok (audit (active (normalized (some (lit "Booking app"))) booking))
apply_decision_rules-audit_example =
    apply_decision_rules-audit booking (some (lit "Booking app")) booking-IsRules

apply-parse-IsSafe_example :
    (o : Outcome) × (apply_decision_rules booking (some (lit "Booking app")) ≡ ok o) × IsSafe o
apply-parse-IsSafe_example =
    apply-parse-IsSafe reads_booking (some (lit "{ }")) (some (lit "Booking app")) booking parses
