-- ===== src/DesignSystem/Recommendation.antt =====
-- The dict that `generate` returns, from what was chosen.
pub mod Agrees
use package.true.Catalog.Detailed.{File}
use package.true.Catalog.Domain.{Row}
use package.true.DecisionRules.Json.{Json, Result, ok, ◌>>=◌}
use package.true.DecisionRules.Parse.{Rules}
use package.true.DesignSystem.Dials.{Dial}
use package.true.DesignSystem.Generator.{
  Choice, DesignSystemGenerator, Settings, choose, or_general,
}
use package.true.DesignSystem.Mode.{filter_anti_patterns_for_mode}
use package.true.Dict.{Dict, get, get_or}
use package.true.Floats.{Floats}
use package.true.Prelude.{
  Bool, List, Option, String, [], if◌then◌else◌, map, none, some, ℕ, ◌-◌, ◌∷◌,
}
use package.true.Text.{Text, is_lower_letter, lit}

-- The value and the label of a dial.
pub record DialShown : Type 0 where
  pub value : Option ℕ
  pub label : Option Text

pub record Recommendation : Type 0 where
  pub project_name : Text
  pub category : Text
  pub pattern : Dict Text
  pub style : Dict Text
  pub colors : Dict Text
  pub typography : Dict Text
  pub key_effects : Text
  pub anti_patterns : Text
  pub decision_rules : Rules
  pub activated_rules : Rules
  pub constraints : List Text
  pub reasoning_default : Bool
  pub source_identities : Dict (Option Text)
  pub color_mode_derivation : Option Text
  pub severity : Text
  pub variance_dial : DialShown
  pub motion_dial : DialShown
  pub density_dial : DialShown
  pub motion_snippet : Row
  pub spacing_scale : Option (Dict Text)

upper_char : ℕ → ℕ
upper_char c = if is_lower_letter c then c - 32 else c

-- project_name or query.upper()
project_title : Option Text → Text → Text
unfolding upper_char
project_title none query = map upper_char query
project_title (some []) query = map upper_char query
project_title (some (c ∷ t)) query = c ∷ t

-- row.get(column, default), under the key of the answer
pick : Row → String → String → Text → Text × Text
pick row key column default = (lit key, get_or row (lit column) default)

pattern_keys : Row → Text → Dict Text
unfolding pick
pattern_keys landing pattern =
    pick landing "name" "Pattern Name" pattern
    ∷ pick landing "sections" "Section Order" (lit "Hero > Features > CTA")
    ∷ pick landing "cta_placement" "Primary CTA Placement" (lit "Above fold")
    ∷ pick landing "color_strategy" "Color Strategy" []
    ∷ pick landing "conversion" "Conversion Optimization" []
    ∷ []

style_keys : Row → Dict Text
unfolding pick
style_keys style =
    pick style "id" "Style ID" (lit "minimalism-and-swiss-style")
    ∷ pick style "name" "Style Category" (lit "Minimalism")
    ∷ pick style "type" "Type" (lit "General")
    ∷ pick style "effects" "Effects & Animation" []
    ∷ pick style "keywords" "Keywords" []
    ∷ pick style "best_for" "Best For" []
    ∷ pick style "performance" "Performance" []
    ∷ pick style "accessibility" "Accessibility" []
    ∷ pick style "light_mode" "Light Mode ✓" []
    ∷ pick style "dark_mode" "Dark Mode ✓" []
    ∷ []

unfoldable pub color_keys : Row → Dict Text
unfolding pick
color_keys color =
    pick color "primary" "Primary" (lit "#2563EB")
    ∷ pick color "on_primary" "On Primary" []
    ∷ pick color "secondary" "Secondary" (lit "#3B82F6")
    ∷ pick color "on_secondary" "On Secondary" []
    ∷ pick color "accent" "Accent" (lit "#F97316")
    ∷ pick color "on_accent" "On Accent" []
    ∷ pick color "background" "Background" (lit "#F8FAFC")
    ∷ pick color "foreground" "Foreground" (lit "#1E293B")
    ∷ pick color "card" "Card" []
    ∷ pick color "card_foreground" "Card Foreground" []
    ∷ pick color "muted" "Muted" []
    ∷ pick color "muted_foreground" "Muted Foreground" []
    ∷ pick color "border" "Border" []
    ∷ pick color "destructive" "Destructive" []
    ∷ pick color "on_destructive" "On Destructive" []
    ∷ pick color "ring" "Ring" []
    ∷ pick color "notes" "Notes" []
    ∷ pick color "cta" "Accent" (lit "#F97316")
    ∷ pick color "text" "Foreground" (lit "#1E293B")
    ∷ pick color "on_cta" "On Accent" []
    ∷ []

typography_keys : Row → Text → Dict Text
unfolding pick
typography_keys typography mood =
    pick typography "heading" "Heading Font" (lit "Inter")
    ∷ pick typography "body" "Body Font" (lit "Inter")
    ∷ pick typography "mood" "Mood/Style Keywords" mood
    ∷ pick typography "best_for" "Best For" []
    ∷ pick typography "google_fonts_url" "Google Fonts URL" []
    ∷ pick typography "css_import" "CSS Import" []
    ∷ []

-- style_effects if style_effects else reasoning_effects
combined_effects : Text → Text → Text
combined_effects [] reasoning_effects = reasoning_effects
combined_effects (c ∷ t) reasoning_effects = c ∷ t

-- best_style.get("Style ID") or best_style.get("Style Category")
style_source : Row → Option Text
style_source style = elim (get style (lit "Style ID")) [
  | some (c ∷ t) ↦ some (c ∷ t)
  | _ ↦ get style (lit "Style Category")
]

source_keys : Choice → Dict (Option Text)
unfolding style_source or_general
source_keys c =
    (lit "product", c.category)
    ∷ (lit "reasoning", if c.reasoning.is_default then none else some (or_general c.category))
    ∷ (lit "style", style_source c.style)
    ∷ (lit "color", get c.color (lit "Product Type"))
    ∷ (lit "typography", get c.typography (lit "Font Pairing Name"))
    ∷ (lit "landing", get c.landing (lit "Pattern Name"))
    ∷ []

dial_shown : Option Dial → DialShown
dial_shown none = record { value = none; label = none }
dial_shown (some dial) = record { value = some dial.value; label = some dial.info.label }

spacing_shown : Option Dial → Option (Dict Text)
spacing_shown none = none
spacing_shown (some dial) = some dial.info.spacing

unfoldable pub assemble : Option Text → Text → Choice → Recommendation
unfolding project_title pattern_keys style_keys color_keys typography_keys combined_effects
    source_keys dial_shown spacing_shown filter_anti_patterns_for_mode or_general
assemble project_name query c = record {
  project_name = project_title project_name query;
  category = or_general c.category;
  pattern = pattern_keys c.landing c.reasoning.pattern;
  style = style_keys c.style;
  colors = color_keys c.color;
  typography = typography_keys c.typography c.reasoning.typography_mood;
  key_effects =
      combined_effects (get_or c.style (lit "Effects & Animation") []) c.reasoning.key_effects;
  anti_patterns = filter_anti_patterns_for_mode c.reasoning.anti_patterns c.mode;
  decision_rules = c.reasoning.decision_rules;
  activated_rules = c.reasoning.activated_rules;
  constraints = c.reasoning.constraints;
  reasoning_default = c.reasoning.is_default;
  source_identities = source_keys c;
  color_mode_derivation = get c.color (lit "_mode_derivation");
  severity = c.reasoning.severity;
  variance_dial = dial_shown c.variance_info;
  motion_dial = dial_shown c.motion_info;
  density_dial = dial_shown c.density_info;
  motion_snippet = c.motion_snippet;
  spacing_scale = spacing_shown c.density_info;
}

-- `generate`
unfoldable pub generate :
    (fl : Floats)
    → (Text → File)
    → (Text → Option Json)
    → DesignSystemGenerator
    → Text
    → Option Text
    → Settings
    → Result Recommendation
unfolding choose assemble
generate fl files loads generator query project_name settings =
    choose fl files loads generator query settings >>= λ c. ok (assemble project_name query c)
