-- ===== src/Styling/Tests.antt =====
-- Runs of the styling scripts.
use package.true.Dict.{put}
use package.true.Prelude.{
  All, AllSome, List, [], ap, false, if◌then◌else◌, inr, map, none, refl, some, true, ℕ_discrete,
  ◌++◌, ◌||◌, ◌∷◌, ◌≡◌,
}
use package.true.Regex.{fullmatch}
use package.true.Styling.Shadcn.{
  Project, Ran, add_components, alias_or_default, already_installed, command, completed, done,
  execute, first_word, get_installed_components, get_shadcn_version, index_error, installed_below,
  is_range_char, report, stems_or_none, version_in, version_of, with_output, without_at,
}
use package.true.Styling.Shadcn.Commands.{
  IsAllowed, add_components-IsAllowed, add_components-dry_run, run_of,
}
use package.true.Styling.Tailwind.{
  Generator, add_colors, add_plugins, append_plugins, before_newline, format_plugins, generator,
  is_name_char, is_path_char, is_valid_plugin, matches_before, plugin_name, plugin_requires,
  recommend_plugins, with_plugins,
}
use package.true.Styling.Tailwind.CommandLine.{
  Arguments, configure, configure-written, read_specs, with_specs,
}
use package.true.Styling.Tailwind.Indentation.{indent_json-body}
use package.true.Styling.Tailwind.Plugins.{
  IsName, add_plugins-Distinct, format_plugins-IsHarmless, require_of,
}
use package.true.Styling.Tailwind.Printing.{
  config_json, generate_config_string, indent_json, quoted,
}
use package.true.Text.{
  Distinct, Text, Text-discrete, contains, is_digit, is_lower_letter, is_space, is_upper_letter,
  is_word, lit, ◌==◌,
}
use package.true.Text.Cut.{join, lstrip, split_first, split_on, words}

abbrev project : Project
project = record {
  components_json_exists = true;
  components_alias = some (some (lit "@/components"));
  ui_stems = λ d. if d == lit "components" then some (lit "button" ∷ []) else none;
  package_versions = some (some (lit "^2.5.0"), none);
}

abbrev npx : List Text → Ran
npx cmd = completed []

adds_card :
    add_components npx project false (lit "card" ∷ []) false
    ≡ done true
        (lit "Successfully added components: card")
        (some (lit "npx" ∷ lit "shadcn@2.5.0" ∷ lit "add" ∷ lit "card" ∷ []))
unfolding add_components execute report command with_output already_installed
    get_installed_components installed_below without_at alias_or_default stems_or_none
    get_shadcn_version version_of version_in is_range_char first_word words is_space lstrip join lit
    Text-discrete ℕ_discrete
adds_card = refl

-- "^" is no version: the first word behind the range characters does not exist
no_version :
    add_components npx
      (record {
        components_json_exists = true;
        components_alias = none;
        ui_stems = λ d. none;
        package_versions = some (some (lit "^"), none);
      })
      true
      (lit "card" ∷ [])
      false
    ≡ index_error
unfolding add_components execute already_installed get_installed_components installed_below
    get_shadcn_version version_of version_in is_range_char first_word words lstrip lit
no_version = refl

add_components-IsAllowed_example :
    AllSome
      (IsAllowed project false (lit "card" ∷ []) false)
      (run_of (add_components npx project false (lit "card" ∷ []) false))
add_components-IsAllowed_example =
    add_components-IsAllowed npx project false (lit "card" ∷ []) false

add_components-dry_run_example :
    add_components npx project true (lit "card" ∷ []) false
    ≡ done true
        (lit "Would run: "
          ++ join (lit " ") (lit "npx" ∷ lit "shadcn@2.5.0" ∷ lit "add" ∷ lit "card" ∷ []))
        none
add_components-dry_run_example =
    add_components-dry_run npx project (lit "card" ∷ []) false
      (lit "npx" ∷ lit "shadcn@2.5.0" ∷ lit "add" ∷ lit "card" ∷ []) (ap run_of adds_card)

-- The pattern of a plugin name lets a last newline pass.
newline_passes : is_valid_plugin (lit "forms" ++ b'\n' ∷ []) ≡ true
unfolding is_valid_plugin matches_before before_newline plugin_name fullmatch is_name_char
    is_path_char is_word is_lower_letter is_upper_letter is_digit lit
newline_passes = refl

abbrev with_forms : Generator
with_forms = add_plugins (generator true (lit "react")) (lit "@tailwindcss/forms" ∷ [])

writes_forms : format_plugins with_forms ≡ inr (lit "require('@tailwindcss/forms')")
unfolding format_plugins plugin_requires is_valid_plugin matches_before before_newline plugin_name
    fullmatch is_name_char is_path_char is_word is_lower_letter is_upper_letter is_digit lit join
    add_plugins append_plugins with_plugins generator
writes_forms = refl

format_plugins-IsHarmless_example :
    All IsName with_forms.plugins
    × (lit "require('@tailwindcss/forms')" ≡ join (lit ", ") (map require_of with_forms.plugins))
format_plugins-IsHarmless_example =
    format_plugins-IsHarmless with_forms (lit "require('@tailwindcss/forms')") writes_forms

starts_empty : Distinct (generator true (lit "react")).plugins
unfolding generator
starts_empty = tt

add_plugins-Distinct_example :
    Distinct with_forms.plugins
    × ((q : Text)
        → contains with_forms.plugins q ≡ (
            contains (generator true (lit "react")).plugins q
            || contains (lit "@tailwindcss/forms" ∷ []) q))
add_plugins-Distinct_example =
    add_plugins-Distinct (generator true (lit "react")) (lit "@tailwindcss/forms" ∷ []) starts_empty

abbrev arguments : Arguments
arguments = record {
  framework = lit "nextjs";
  js = true;
  colors = lit "brand:#3b82f6" ∷ [];
  fonts = [];
  spacing = [];
  breakpoints = [];
  plugins = true;
}

abbrev configured : Generator
configured =
    let base = add_colors (generator false (lit "nextjs")) ((lit "brand", lit "#3b82f6") ∷ []) in
    add_plugins base (recommend_plugins base)

configures : configure arguments ≡ some configured
unfolding configure with_specs read_specs split_first put lit
configures = refl

configure-written_example : (content : Text) × (generate_config_string configured ≡ inr content)
configure-written_example = configure-written arguments configured configures

indent_json-body_example :
    (body : Text) × (config_json with_forms ≡ b'{' ∷ b'\n' ∷ body ++ b'\n' ∷ b'}' ∷ [])
    × (indent_json (config_json with_forms)
        ≡ join (b'\n' ∷ []) (map (λ line. b' ' ∷ b' ' ∷ line) (split_on b'\n' body)))
indent_json-body_example = indent_json-body with_forms

-- a character beyond the basic plane is escaped as two surrogates
escapes : quoted (128512 ∷ []) ≡ lit "\"\\ud83d\\ude00\""
unfolding quoted lit
escapes = refl
