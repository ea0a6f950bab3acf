-- ===== src/Styling/Tailwind/Printing.antt =====
-- `generate_config_string`: the configuration as JSON, as json.dumps with indent 2 prints it, between
-- the first and the last line of the module.
use package.true.Dict.{Dict}
use package.true.Prelude.{
  List, [], ap, drop, eqb, if◌then◌else◌, inl, inr, leb, ltb, map, refl, suc, zero, ℕ, ◌%◌, ◌&&◌,
  ◌++◌, ◌+◌, ◌-◌, ◌/◌, ◌∷◌, ◌≡◌, ◌⊎◌,
}
use package.true.Styling.Tailwind.{
  Generator, Value, format_plugins, plain, plain_list, plugin_requires, shades,
}
use package.true.Text.{Text, lit}
use package.true.Text.Cut.{join, split_on}

-- a digit of an escape, for a number below 16
hex_digit : ℕ → ℕ
hex_digit n = if ltb n 10 then b'0' + n else b'a' + (n - 10)

-- the escape of a number below 65536
json_unit : ℕ → Text
unfolding hex_digit
json_unit n =
    b'\\'
    ∷ b'u'
    ∷ hex_digit (n / 4096 % 16)
    ∷ hex_digit (n / 256 % 16)
    ∷ hex_digit (n / 16 % 16)
    ∷ hex_digit (n % 16)
    ∷ []

-- a character beyond ASCII: a greater one is the escapes of its two surrogates
json_escape : ℕ → Text
unfolding json_unit
json_escape c =
    if ltb c 65536
    then json_unit c
    else json_unit (55296 + (c - 65536) / 1024) ++ json_unit (56320 + (c - 65536) % 1024)

-- a character of a JSON string, as json.dumps prints it
json_char : ℕ → Text
unfolding json_escape
json_char c =
    if eqb c b'"'
    then b'\\' ∷ b'"' ∷ []
    else if eqb c b'\\'
    then b'\\' ∷ b'\\' ∷ []
    else if eqb c b'\n'
    then b'\\' ∷ b'n' ∷ []
    else if eqb c b'\r'
    then b'\\' ∷ b'r' ∷ []
    else if eqb c b'\t'
    then b'\\' ∷ b't' ∷ []
    else if eqb c 12
    then b'\\' ∷ b'f' ∷ []
    else if eqb c 8
    then b'\\' ∷ b'b' ∷ []
    else if leb 32 c && leb c 126
    then c ∷ []
    else json_escape c

json_chars : Text → Text
unfolding json_char
json_chars [] = []
json_chars (c ∷ t) = json_char c ++ json_chars t

unfoldable pub quoted : Text → Text
unfolding json_chars
quoted t = b'"' ∷ json_chars t ++ b'"' ∷ []

unfoldable pub spaces : ℕ → Text
spaces zero = []
spaces (suc level) = b' ' ∷ b' ' ∷ spaces level

unfoldable pub newline_at : ℕ → Text
unfolding spaces
newline_at level = b'\n' ∷ spaces level

-- the items of a list or of a dict, one on each line, at a level of indentation
unfoldable pub block : ℕ → ℕ → ℕ → List Text → Text
unfolding newline_at
block level opening closing [] = opening ∷ closing ∷ []
block level opening closing (item ∷ items) =
    opening ∷ newline_at (level + 1)
    ++ join (b',' ∷ newline_at (level + 1)) (item ∷ items)
    ++ newline_at level
    ++ closing ∷ []

unfoldable pub json_list : ℕ → List Text → Text
unfolding block
json_list level ts = block level b'[' b']' (map quoted ts)

unfoldable pub key_value : Text → Text → Text
key_value key value = quoted key ++ b':' ∷ b' ' ∷ value

unfoldable pub json_dict : {A : Type 0} → ℕ → (A → Text) → Dict A → Text
unfolding block key_value
json_dict level print d = block level b'{' b'}' (map (λ (k, v). key_value k (print v)) d)

unfoldable pub json_value : ℕ → Value → Text
unfolding json_list json_dict
json_value level (plain t) = quoted t
json_value level (plain_list ts) = json_list level ts
json_value level (shades d) = json_dict level quoted d

-- the keys of the configuration without the plugins
unfoldable pub config_items : Generator → List Text
unfolding block key_value json_list json_dict json_value
config_items g =
    key_value (lit "darkMode") (json_list 1 g.dark_mode)
    ∷ key_value (lit "content") (json_list 1 g.content)
    ∷ key_value (lit "theme") (
        block 1 b'{' b'}' (
          key_value (lit "extend")
            (json_dict 2 (λ section. json_dict 3 (json_value 4) section) g.extend)
          ∷ []))
    ∷ []

-- json.dumps(config_obj, indent=2), the plugins taken out
unfoldable pub config_json : Generator → Text
unfolding block config_items
config_json g = block 0 b'{' b'}' (config_items g)

-- lines[1:-1]
unfoldable pub without_last : List Text → List Text
without_last [] = []
without_last (line ∷ []) = []
without_last (line ∷ next ∷ lines) = line ∷ without_last (next ∷ lines)

-- `_indent_json` at level 1
unfoldable pub indent_json : Text → Text
unfolding without_last
indent_json json =
    join (b'\n' ∷ [])
      (map (λ line. b' ' ∷ b' ' ∷ line) (without_last (drop 1 (split_on b'\n' json))))

lines : List Text → Text
lines [] = []
lines (line ∷ rest) = line ++ b'\n' ∷ lines rest

-- `_generate_typescript` and `_generate_javascript`, with the plugins as `_format_plugins` has them
generate_typescript : Generator → Text → Text
unfolding lines
generate_typescript g plugins = lines (
    lit "import type { Config } from 'tailwindcss'"
    ∷ []
    ∷ lit "const config: Config = {"
    ∷ (indent_json (config_json g) ++ lit ",")
    ∷ (lit "  plugins: [" ++ plugins ++ lit "],")
    ∷ lit "}"
    ∷ []
    ∷ lit "export default config"
    ∷ [])

generate_javascript : Generator → Text → Text
unfolding lines
generate_javascript g plugins = lines (
    lit "/** @type {import('tailwindcss').Config} */"
    ∷ lit "module.exports = {"
    ∷ (indent_json (config_json g) ++ lit ",")
    ∷ (lit "  plugins: [" ++ plugins ++ lit "],")
    ∷ lit "}"
    ∷ [])

generated : Generator → Text ⊎ Text → Text ⊎ Text
unfolding generate_typescript generate_javascript
generated g (inl bad) = inl bad
generated g (inr plugins) =
    inr (if g.typescript then generate_typescript g plugins else generate_javascript g plugins)

-- `generate_config_string`, or the plugin of the ValueError
unfoldable pub generate_config_string : Generator → Text ⊎ Text
unfolding generated
generate_config_string g = generated g (format_plugins g)

-- Where all plugins have their `require`, the configuration is generated.
pub written :
    (g : Generator) (requires : List Text)
    → plugin_requires g.plugins ≡ inr requires
    → (content : Text) × (generate_config_string g ≡ inr content)
unfolding generate_config_string generated format_plugins
written g requires e =
    let plugins = join (lit ", ") requires in
    let formatted : format_plugins g ≡ inr plugins = rw (e, format_plugins) refl in
    (
      if g.typescript then generate_typescript g plugins else generate_javascript g plugins,
      ap (generated g) formatted,
    )
