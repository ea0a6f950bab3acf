-- ===== src/DesignSystem/Reasoning.antt =====
-- `_find_reasoning_rule`, `_apply_reasoning` and `_multi_domain_search`: the rule of a category, what
-- its decision rules set for a query, and the searches that follow from it.
use package.true.Catalog.Detailed.{File}
use package.true.Catalog.Domain.{Row}
use package.true.Catalog.Search.{
  Response, answered, bad_max_results, file_not_found, natural, search,
}
use package.true.DecisionRules.Apply.{Outcome, apply_decision_rules}
use package.true.DecisionRules.Json.{Json, Result, ok, ◌>>=◌}
use package.true.DecisionRules.Parse.{Rules, parse_decision_rules}
use package.true.DesignSystem.Resolve.{Lookup, resolve_style}
use package.true.Dict.{get_or, has_key}
use package.true.Floats.{Floats}
use package.true.Prelude.{
  Bool, List, Option, [], eqb, false, if◌then◌else◌, is_empty, map, none, not, select, some, take,
  true, ℕ, ◌++◌, ◌∷◌,
}
use package.true.Text.{Text, lit, lower, ◌==◌}
use package.true.Text.Cut.{join, split_on, strip}

-- The dict that `_apply_reasoning` returns.
pub record Reasoning : Type 0 where
  pub pattern : Text
  pub style_priority : List Text
  pub color_mood : Text
  pub typography_mood : Text
  pub key_effects : Text
  pub anti_patterns : Text
  pub decision_rules : Rules
  pub activated_rules : Rules
  pub constraints : List Text
  pub preferred_mode : Option Text
  pub is_default : Bool
  pub severity : Text

-- `_find_reasoning_rule`
unfoldable pub find_reasoning_rule : List Row → Text → Row
unfolding lower strip
find_reasoning_rule [] category = []
find_reasoning_rule (rule ∷ rules) category =
    let rest = find_reasoning_rule rules category in
    if lower (strip (get_or rule (lit "UI_Category") [])) == lower (strip category)
    then rule
    else rest

unfoldable pub default_reasoning : Reasoning
default_reasoning = record {
  pattern = lit "Hero + Features + CTA";
  style_priority = map lit ("Minimalism" ∷ "Flat Design" ∷ []);
  color_mood = lit "Professional";
  typography_mood = lit "Clean";
  key_effects = lit "Subtle hover transitions";
  anti_patterns = [];
  decision_rules = [];
  activated_rules = [];
  constraints = [];
  preferred_mode = none;
  is_default = true;
  severity = lit "MEDIUM";
}

-- the names of the styles that the decision rules ask for
applied_style_name : Lookup → Text → Text
unfolding resolve_style
applied_style_name lookup style_id =
    get_or (resolve_style lookup style_id) (lit "Style Category") style_id

-- applied["pattern"] or rule.get("Recommended_Pattern", "")
pattern_of : Option Text → Row → Text
pattern_of none rule = get_or rule (lit "Recommended_Pattern") []
pattern_of (some []) rule = get_or rule (lit "Recommended_Pattern") []
pattern_of (some (c ∷ t)) rule = c ∷ t

reasoning_of : Lookup → Row → Rules → Outcome → Reasoning
unfolding applied_style_name pattern_of split_on strip
reasoning_of lookup rule rules applied = record {
  pattern = pattern_of applied.pattern rule;
  style_priority =
      map (applied_style_name lookup) applied.style_ids
      ++ map strip (split_on b'+' (get_or rule (lit "Style_Priority") []));
  color_mood = get_or rule (lit "Color_Mood") [];
  typography_mood = get_or rule (lit "Typography_Mood") [];
  key_effects = get_or rule (lit "Key_Effects") [];
  anti_patterns = get_or rule (lit "Anti_Patterns") [];
  decision_rules = rules;
  activated_rules = applied.activated;
  constraints = applied.constraints;
  preferred_mode = applied.mode;
  is_default = false;
  severity = get_or rule (lit "Severity") (lit "MEDIUM");
}

-- the rules of a row: rule.get("Decision_Rules", "{}")
rules_text : Row → Text
rules_text rule = get_or rule (lit "Decision_Rules") (lit "{}")

-- `_apply_reasoning`; `loads` is the decoder of json.loads
unfoldable pub apply_reasoning :
    (Text → Option Json) → List Row → Lookup → Text → Text → Result Reasoning
unfolding find_reasoning_rule reasoning_of rules_text default_reasoning parse_decision_rules
    apply_decision_rules
apply_reasoning loads rules lookup category query =
    let rule = find_reasoning_rule rules category in
    if is_empty rule
    then ok default_reasoning
    else (parse_decision_rules loads (some (rules_text rule)) >>= λ decision_rules.
        apply_decision_rules decision_rules (some query) >>= λ applied.
        ok (reasoning_of lookup rule decision_rules applied))

-- " ".join(part for part in parts if part)
unfoldable pub join_parts : List Text → Text
unfolding join
join_parts parts = join (lit " ") (select (λ part. not (is_empty part)) parts)

-- constraint.replace("-", " ")
unfoldable pub spaced_out : Text → Text
spaced_out t = map (λ c. if eqb c b'-' then b' ' else c) t

unfoldable pub resolved_query : Text → Text → Reasoning → Text
unfolding join_parts spaced_out join
resolved_query query category reasoning =
    join_parts (query ∷ category ∷ join (lit " ") (map spaced_out reasoning.constraints) ∷ [])

-- f"{a} {b}"
spaced : Text → Text → Text
spaced a b = a ++ (lit " " ++ b)

-- style_priority[:2], where there is some
unfoldable pub style_query : Text → Text → List Text → Text
unfolding join spaced
style_query query resolved [] = query
style_query query resolved (first ∷ others) =
    spaced resolved (join (lit " ") (take 2 (first ∷ others)))

-- The pattern alone, where it names a row of landing.csv.
unfoldable pub landing_query : Text → Text → Text → Lookup → Text
unfolding lower spaced
landing_query query resolved pattern landing =
    let asked = if has_key landing (lower pattern) then pattern else spaced pattern resolved in
    if is_empty asked then query else asked

module _ (fl : Floats) (files : Text → File) where
  -- search_result.get("results", [])
  unfoldable pub results_of : Response fl files → List Row
  results_of bad_max_results = []
  results_of (file_not_found name) = []
  results_of (answered answer) = answer.results

  unfoldable pub found_in : Text → Text → ℕ → List Row
  unfolding results_of search
  found_in query domain max_results =
      results_of (search fl files query (some domain) (natural max_results))

  pub record Searches : Type 0 where
    pub style : List Row
    pub color : List Row
    pub landing : List Row
    pub typography : List Row

  -- `_multi_domain_search`, with the results of each search that `generate` reads
  unfoldable pub multi_domain_search : Text → Text → Reasoning → List Text → Lookup → Searches
  unfolding found_in style_query landing_query resolved_query spaced
  multi_domain_search query category reasoning style_priority landing =
      let resolved = resolved_query query category reasoning in
      record {
        style = found_in (style_query query resolved style_priority) (lit "style") 3;
        color = found_in (spaced reasoning.color_mood resolved) (lit "color") 5;
        landing =
            found_in (landing_query query resolved reasoning.pattern landing) (lit "landing") 2;
        typography = found_in (spaced reasoning.typography_mood resolved) (lit "typography") 2;
      }
