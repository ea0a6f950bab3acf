-- ===== src/DesignSystem/Tests.antt =====
-- Runs of the design system generator on concrete inputs, and the properties at such inputs.
use package.true.Catalog.Detailed.{File, holds, missing}
use package.true.Catalog.Domain.{Row}
use package.true.DecisionRules.Json.{Json, ok}
use package.true.DesignSystem.Colors.{
  contrast_ratio, derive_dark_palette, hex_digits, hex_pair, hex_value, is_dark_luminance,
  relative_luminance, stands_out,
}
use package.true.DesignSystem.Colors.Derived.{IsDarkVersion, derive_dark_palette-IsDarkVersion}
use package.true.DesignSystem.Dials.{
  Dial, IsClamped, IsDialOf, clamped, dial_tiers, resolve_dial, resolve_dial-IsDialOf, variance,
}
use package.true.DesignSystem.Generator.{
  Choice, DesignSystemGenerator, Settings, choice_of, choose, product_category,
}
use package.true.DesignSystem.Mode.{filter_anti_patterns_for_mode}
use package.true.DesignSystem.Reasoning.{apply_reasoning, default_reasoning, found_in}
use package.true.DesignSystem.Recommendation.{assemble, generate}
use package.true.DesignSystem.Recommendation.Agrees.{Agrees, generate-Agrees}
use package.true.DesignSystem.Resolve.{Lookup, first_style, followed, resolve_style}
use package.true.DesignSystem.Resolve.Settles.{Settled, resolve_style-Settled}
use package.true.Dict.{get_or}
use package.true.Floats.{Floats}
use package.true.Prelude.{
  Option, String, [], false, if◌then◌else◌, leb, ltb, none, pos, refl, some, true, ℕ, ℕ_discrete,
  ◌*◌, ◌+◌, ◌-◌, ◌/◌, ◌||◌, ◌∷◌, ◌≡◌,
}
use package.true.Text.{Text, Text-discrete, lit, ◌==◌}
use package.true.Text.Cut.{has}

-- Ten-thousandths; a power is a square.
abbrev scaled_floats : Floats
scaled_floats = record {
  Float = ℕ;
  whole = λ n. n * 10000;
  ratio = λ a b. a * 10000 / b;
  plus = λ a b. a + b;
  times = λ a b. a * b / 10000;
  minus = λ a b. a - b;
  over = λ a b. a * 10000 / b;
  log = λ a. a;
  power = λ a b. a * a / 10000;
  less = ltb;
  at_most = leb;
}

resolve_dial-IsDialOf_example :
    (d : Dial) × (resolve_dial variance (some (pos 12)) ≡ some d)
    × IsClamped (pos 12) d.value
    × IsDialOf (dial_tiers variance) d.value d
resolve_dial-IsDialOf_example = resolve_dial-IsDialOf variance (pos 12)

clamps : clamped (pos 12) ≡ 10
unfolding clamped
clamps = refl

slate_dark :
    is_dark_luminance scaled_floats (relative_luminance scaled_floats (lit "#0F172A")) ≡ true
unfolding is_dark_luminance relative_luminance lit hex_digits hex_pair hex_value
slate_dark = refl

white_light :
    is_dark_luminance scaled_floats (relative_luminance scaled_floats (lit " #fff")) ≡ false
unfolding is_dark_luminance relative_luminance lit hex_digits hex_pair hex_value
white_light = refl

ring_stands_out : stands_out scaled_floats (lit "#0F172A") (lit "#60A5FA") ≡ true
unfolding stands_out contrast_ratio relative_luminance lit hex_digits hex_pair hex_value
ring_stands_out = refl

abbrev banking : Row
banking = (lit "Product Type", lit "Banking") ∷ (lit "Background", lit "#FFFFFF") ∷ []

derive_dark_palette-IsDarkVersion_example :
    IsDarkVersion scaled_floats banking (derive_dark_palette scaled_floats banking)
derive_dark_palette-IsDarkVersion_example =
    derive_dark_palette-IsDarkVersion scaled_floats banking slate_dark ring_stands_out

filters :
    filter_anti_patterns_for_mode (lit "Avoid Dark Mode by default + Tiny text") (lit "dark")
    ≡ lit "Tiny text"
unfolding filter_anti_patterns_for_mode lit ℕ_discrete Text-discrete has
filters = refl

deprecated_style : String → String → Row
deprecated_style id parent =
    (lit "Style ID", lit id)
    ∷ (lit "Status", lit "deprecated")
    ∷ (lit "Parent Style ID", lit parent)
    ∷ []

-- Two deprecated styles, each the parent of the other.
abbrev cycle : Lookup
cycle =
    (lit "old", deprecated_style "old" "older") ∷ (lit "older", deprecated_style "older" "old") ∷ []

resolve_style-Settled_example :
    (followed cycle (lit " Old ") ≡ some (resolve_style cycle (lit " Old ")))
    × Settled cycle (first_style cycle (lit " Old ")) (resolve_style cycle (lit " Old "))
resolve_style-Settled_example = resolve_style-Settled cycle (lit " Old ")

resolves_cycle : resolve_style cycle (lit " Old ") ≡ []
unfolding resolve_style lit ℕ_discrete deprecated_style get_or Text-discrete
resolves_cycle = refl

-- A repository with products and colours.
abbrev two_files : Text → File
two_files name =
    if name == lit "colors.csv" || name == lit "products.csv" then holds (banking ∷ []) else missing

abbrev no_json : Text → Option Json
no_json t = none

abbrev empty_generator : DesignSystemGenerator
empty_generator = record { reasoning_data = []; style_lookup = []; landing_lookup = [] }

abbrev no_dials : Settings
no_dials = record { variance_setting = none; motion_setting = none; density_setting = none }

chosen : Choice
chosen =
    choice_of scaled_floats two_files no_json empty_generator (lit "dark mode bank") no_dials
      (product_category (found_in scaled_floats two_files (lit "dark mode bank") (lit "product") 1))
      default_reasoning

generates :
    generate scaled_floats two_files no_json empty_generator (lit "dark mode bank") none no_dials
    ≡ ok (assemble none (lit "dark mode bank") chosen)
unfolding generate choose apply_reasoning chosen
generates = refl

generate-Agrees_example :
    (c : Choice) × (choose scaled_floats two_files no_json empty_generator
        (lit "dark mode bank")
        no_dials
      ≡ ok c)
    × (assemble none (lit "dark mode bank") chosen ≡ assemble none (lit "dark mode bank") c)
    × Agrees scaled_floats (lit "dark mode bank") c (assemble none (lit "dark mode bank") chosen)
generate-Agrees_example =
    generate-Agrees scaled_floats two_files no_json empty_generator (lit "dark mode bank") none
      no_dials slate_dark ring_stands_out generates
