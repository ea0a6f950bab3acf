-- ===== src/Styling/Tailwind.antt =====
-- The class `TailwindConfigGenerator` of tailwind_config_gen.py.
pub mod Plugins
pub mod Printing
pub mod Indentation
pub mod CommandLine
use package.true.Dict.{Dict, get_or, put}
use package.true.Prelude.{
  Bool, List, Option, [], eqb, false, if◌then◌else◌, inl, inr, is_empty, map, none, some, true, ℕ,
  ◌++◌, ◌||◌, ◌∷◌, ◌⊎◌,
}
use package.true.Regex.{Regex, class, fullmatch, optional, plus, seq, star, symbol}
use package.true.Text.{Text, contains, is_word, lit, ◌==◌}
use package.true.Text.Cut.{join}

-- The value of a theme extension: a text, a list of texts, or the shades of a palette.
pub data Value : Type 0 where
  plain : Text → Value
  plain_list : List Text → Value
  shades : Dict Text → Value

-- The fields of the generator; `extend` is config["theme"]["extend"].
pub record Generator : Type 0 where
  pub typescript : Bool
  pub framework : Text
  pub dark_mode : List Text
  pub content : List Text
  pub extend : Dict (Dict Value)
  pub plugins : List Text

-- paths of `_default_content_paths`
unfoldable pub content_paths : Dict (List Text)
content_paths =
    (lit "react", map lit ("./src/**/*.{js,jsx,ts,tsx}" ∷ "./index.html" ∷ []))
    ∷ (lit "vue", map lit ("./src/**/*.{vue,js,ts,jsx,tsx}" ∷ "./index.html" ∷ []))
    ∷ (lit "svelte", map lit ("./src/**/*.{svelte,js,ts}" ∷ "./src/app.html" ∷ []))
    ∷ (
      lit "nextjs",
      map lit (
          "./app/**/*.{js,ts,jsx,tsx}" ∷ "./pages/**/*.{js,ts,jsx,tsx}"
          ∷ "./components/**/*.{js,ts,jsx,tsx}" ∷ []),
    )
    ∷ []

-- `_default_content_paths`
unfoldable pub default_content_paths : Text → List Text
default_content_paths framework =
    get_or content_paths framework (get_or content_paths (lit "react") [])

-- `__init__`, with `_base_config`
unfoldable pub generator : Bool → Text → Generator
generator typescript framework = record {
  typescript = typescript;
  framework = framework;
  dark_mode = lit "class" ∷ [];
  content = default_content_paths framework;
  extend = [];
  plugins = [];
}

with_extend : Generator → Dict (Dict Value) → Generator
with_extend g extend = record {
  typescript = g.typescript;
  framework = g.framework;
  dark_mode = g.dark_mode;
  content = g.content;
  extend = extend;
  plugins = g.plugins;
}

unfoldable pub with_plugins : Generator → List Text → Generator
with_plugins g plugins = record {
  typescript = g.typescript;
  framework = g.framework;
  dark_mode = g.dark_mode;
  content = g.content;
  extend = g.extend;
  plugins = plugins;
}

-- dict.update
put_all : Dict Value → Dict Value → Dict Value
put_all d [] = d
put_all d ((k, v) ∷ more) = put_all (put d k v) more

-- the body that the four operations share: the section is made if it is not there
unfoldable pub add_to_section : Text → Generator → Dict Value → Generator
unfolding with_extend put_all
add_to_section section g values =
    with_extend g (put g.extend section (put_all (get_or g.extend section []) values))

texts_of : Dict Text → Dict Value
texts_of = map (λ (k, v). (k, plain v))

-- `add_colors`, `add_fonts`, `add_spacing`, `add_breakpoints`
unfoldable pub add_colors : Generator → Dict Text → Generator
unfolding texts_of
add_colors g colors = add_to_section (lit "colors") g (texts_of colors)

unfoldable pub add_fonts : Generator → Dict (List Text) → Generator
add_fonts g fonts = add_to_section (lit "fontFamily") g (map (λ (k, v). (k, plain_list v)) fonts)

unfoldable pub add_spacing : Generator → Dict Text → Generator
unfolding texts_of
add_spacing g spacing = add_to_section (lit "spacing") g (texts_of spacing)

unfoldable pub add_breakpoints : Generator → Dict Text → Generator
unfolding texts_of
add_breakpoints g breakpoints = add_to_section (lit "screens") g (texts_of breakpoints)

shade : Text → Text → Text × Text
shade name step = (step, lit "var(--color-" ++ name ++ lit "-" ++ step ++ lit ")")

-- `add_color_palette`
unfoldable pub add_color_palette : Generator → Text → Generator
unfolding shade
add_color_palette g name = add_to_section (lit "colors") g (
    (
      name,
      shades (
          map (λ step. shade name (lit step))
            ("50" ∷ "100" ∷ "200" ∷ "300" ∷ "400" ∷ "500" ∷ "600" ∷ "700" ∷ "800" ∷ "900" ∷ "950"
              ∷ [])),
    )
    ∷ [])

unfoldable pub append_plugins : List Text → List Text → List Text
append_plugins known [] = known
append_plugins known (plugin ∷ plugins) =
    append_plugins (if contains known plugin then known else known ++ plugin ∷ []) plugins

-- `add_plugins`
unfoldable pub add_plugins : Generator → List Text → Generator
unfolding append_plugins with_plugins
add_plugins g plugins = with_plugins g (append_plugins g.plugins plugins)

-- `recommend_plugins`
unfoldable pub recommend_plugins : Generator → List Text
recommend_plugins g =
    lit "tailwindcss-animate"
    ∷ (if g.framework == lit "nextjs" then lit "@tailwindcss/typography" ∷ [] else [])

-- [a-zA-Z0-9_-] and [a-zA-Z0-9_.-]
unfoldable pub is_name_char : ℕ → Bool
is_name_char c = is_word c || eqb c b'-'

unfoldable pub is_path_char : ℕ → Bool
is_path_char c = is_word c || eqb c b'.' || eqb c b'-'

-- _VALID_PLUGIN_NAME, without the anchors
unfoldable pub plugin_name : Regex
plugin_name =
    seq (optional (seq (symbol b'@') (seq (plus (class is_name_char)) (symbol b'/'))))
      (seq (plus (class is_name_char)) (star (seq (symbol b'/') (plus (class is_path_char)))))

-- the text before a last newline
unfoldable pub before_newline : Text → Option Text
before_newline [] = none
before_newline (c ∷ []) = if eqb c b'\n' then some [] else none
before_newline (c ∷ d ∷ t) = elim (before_newline (d ∷ t)) [ none ↦ none | some s ↦ some (c ∷ s) ]

unfoldable pub matches_before : Option Text → Bool
matches_before none = false
matches_before (some s) = fullmatch plugin_name s

-- _VALID_PLUGIN_NAME.match: the anchor $ matches at the end and before a last newline
unfoldable pub is_valid_plugin : Text → Bool
unfolding before_newline matches_before
is_valid_plugin plugin = fullmatch plugin_name plugin || matches_before (before_newline plugin)

-- require('{plugin}') for each plugin, or the plugin of the ValueError
unfoldable pub plugin_requires : List Text → Text ⊎ List Text
plugin_requires [] = inr []
plugin_requires (plugin ∷ plugins) = elim (is_valid_plugin plugin) [
  | false ↦ inl plugin
  | true ↦ elim (plugin_requires plugins) [
    | inl bad ↦ inl bad
    | inr requires ↦ inr ((lit "require('" ++ plugin ++ lit "')") ∷ requires)
  ]
]

-- `_format_plugins`
unfoldable pub format_plugins : Generator → Text ⊎ Text
unfolding plugin_requires
format_plugins g = elim (plugin_requires g.plugins) [
  | inl bad ↦ inl bad
  | inr requires ↦ inr (join (lit ", ") requires)
]

-- `validate_config`
unfoldable pub validate_config : Generator → Bool × Text
validate_config g =
    if is_empty g.content
    then (false, lit "No content paths specified")
    else if is_empty g.extend
    then (true, lit "Warning: No theme extensions defined")
    else (true, lit "Configuration valid")
