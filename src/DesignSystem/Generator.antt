-- ===== src/DesignSystem/Generator.antt =====
-- `DesignSystemGenerator`: what it loads, and `generate`, which puts the choices for a query together.
use package.true.Catalog.Detailed.{File, holds, missing, unreadable}
use package.true.Catalog.Domain.{Row}
use package.true.DecisionRules.Json.{Json, Result, ok, ◌>>=◌}
use package.true.DesignSystem.Dials.{Dial, density, motion, resolve_dial, variance}
use package.true.DesignSystem.Match.{select_best_match}
use package.true.DesignSystem.Mode.{first_row, resolve_color_mode, select_palette_for_mode}
use package.true.DesignSystem.Reasoning.{Reasoning, apply_reasoning, found_in, multi_domain_search}
use package.true.DesignSystem.Resolve.{Lookup, build_style_lookup, landing_patterns}
use package.true.Dict.{get_or}
use package.true.Floats.{Floats}
use package.true.Prelude.{List, Option, [], none, some, ℤ, ◌++◌, ◌∷◌}
use package.true.Text.{Text, lit, ◌==◌}

pub record DesignSystemGenerator : Type 0 where
  pub reasoning_data : List Row
  pub style_lookup : Lookup
  pub landing_lookup : Lookup

-- no rows where a file does not exist; `none` where it cannot be read, which raises
loaded_rows : File → Option (List Row)
loaded_rows missing = some []
loaded_rows unreadable = none
loaded_rows (holds rows) = some rows

generator_of :
    Option (List Row) → Option (List Row) → Option (List Row) → Option DesignSystemGenerator
unfolding build_style_lookup landing_patterns
generator_of (some reasoning) (some styles) (some landing) = some (record {
  reasoning_data = reasoning;
  style_lookup = build_style_lookup styles;
  landing_lookup = landing_patterns landing;
})
generator_of _ _ _ = none

-- `__init__`
unfoldable pub load_generator : (Text → File) → Option DesignSystemGenerator
unfolding generator_of loaded_rows
load_generator files =
    generator_of (loaded_rows (files (lit "ui-reasoning.csv")))
      (loaded_rows (files (lit "styles.csv"))) (loaded_rows (files (lit "landing.csv")))

-- The dials as they are set.
pub record Settings : Type 0 where
  pub variance_setting : Option ℤ
  pub motion_setting : Option ℤ
  pub density_setting : Option ℤ

-- What is chosen for a query, before it is put together.
pub record Choice : Type 0 where
  pub category : Option Text
  pub reasoning : Reasoning
  pub color_results : List Row
  pub style : Row
  pub mode : Text
  pub color : Row
  pub typography : Row
  pub landing : Row
  pub motion_snippet : Row
  pub variance_info : Option Dial
  pub motion_info : Option Dial
  pub density_info : Option Dial

-- product_results[0].get("Product Type", "General")
unfoldable pub product_category : List Row → Option Text
product_category [] = none
product_category (row ∷ rows) = some (get_or row (lit "Product Type") (lit "General"))

unfoldable pub or_general : Option Text → Text
or_general none = lit "General"
or_general (some category) = category

-- variance_info["style_keywords"] + style_priority
effective_priority : Option Dial → List Text → List Text
effective_priority none priority = priority
effective_priority (some dial) priority = dial.info.style_keywords ++ priority

-- reasoning.get("preferred_mode") or _resolve_color_mode(query, best_style)
unfoldable pub chosen_mode : Option Text → Text → Row → Text
unfolding resolve_color_mode
chosen_mode none query style = resolve_color_mode query style
chosen_mode (some []) query style = resolve_color_mode query style
chosen_mode (some (c ∷ t)) query style = c ∷ t

first_of : List Row → Row
first_of [] = []
first_of (row ∷ rows) = row

-- the landing row of the pattern, or the first
chosen_landing : Text → List Row → Row
unfolding first_row first_of
chosen_landing pattern rows =
    elim (first_row (λ row. get_or row (lit "Pattern Name") [] == pattern) rows) [
      | none ↦ first_of rows
      | some row ↦ row
    ]

-- the snippet of the tier, or the first
chosen_snippet : Text → List Row → Row
unfolding first_row first_of
chosen_snippet tier rows =
    elim (first_row (λ row. get_or row (lit "Intensity Tier") [] == tier) rows) [
      | none ↦ first_of rows
      | some row ↦ row
    ]

module _ (fl : Floats) (files : Text → File) (loads : Text → Option Json) where
  snippet_for : Text → Option Dial → Row
  unfolding found_in chosen_snippet
  snippet_for query none = []
  snippet_for query (some dial) =
      chosen_snippet dial.info.tier
        (found_in fl files (query ++ (lit " " ++ dial.info.tier)) (lit "gsap") 5)

  unfoldable pub choice_of :
      DesignSystemGenerator → Text → Settings → Option Text → Reasoning → Choice
  unfolding resolve_dial effective_priority multi_domain_search select_best_match chosen_mode
      select_palette_for_mode first_of chosen_landing snippet_for or_general
  choice_of generator query settings product reasoning =
      let variance_info = resolve_dial variance settings.variance_setting in
      let motion_info = resolve_dial motion settings.motion_setting in
      let category = or_general product in
      let priority = effective_priority variance_info reasoning.style_priority in
      let found =
        multi_domain_search fl files query category reasoning priority generator.landing_lookup in
      let style = select_best_match generator.style_lookup found.style priority in
      let mode = chosen_mode reasoning.preferred_mode query style in
      record {
        category = product;
        reasoning = reasoning;
        color_results = found.color;
        style = style;
        mode = mode;
        color = select_palette_for_mode fl found.color mode category;
        typography = first_of found.typography;
        landing = chosen_landing reasoning.pattern found.landing;
        motion_snippet = snippet_for query motion_info;
        variance_info = variance_info;
        motion_info = motion_info;
        density_info = resolve_dial density settings.density_setting;
      }

  -- the searches and choices of `generate`
  unfoldable pub choose : DesignSystemGenerator → Text → Settings → Result Choice
  unfolding found_in product_category or_general choice_of apply_reasoning
  choose generator query settings =
      let product = product_category (found_in fl files query (lit "product") 1) in
      apply_reasoning loads generator.reasoning_data generator.style_lookup (or_general product)
        query
      >>= λ reasoning. ok (choice_of generator query settings product reasoning)
